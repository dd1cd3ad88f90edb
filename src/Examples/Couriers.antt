-- ===== src/Examples/Couriers.antt =====
-- A courier that keeps what it tells its session (internal/pcops/courier.go and send.go).
use parallel_consciousness.Prelude.{String, ◌≡◌, List, [], ◌∷◌, ◌++◌}
use parallel_consciousness.Protocol.{Intent, Message, Stamp, to_agent, text, new}
use parallel_consciousness.Agent.{run_agent}
use parallel_consciousness.Pcops.Courier.{Session, start_courier}
use parallel_consciousness.Pcops.Courier.Routing.{all_heard, acknowledged, courier_hears}

abbrev notes : Session (List String)
notes = record { steer = λ s l. s ∷ l; follow = λ s l. l ++ s ∷ [] }

abbrev stamp : Stamp
stamp = record { uuid = "m"; now = 3 }

abbrev saying : Intent → String → Message
saying i s = new (to_agent "gateway") (to_agent "billing") i (("text", text s) ∷ []) stamp

abbrev said : List (Stamp × Message)
said = (stamp, saying Intent.request "rename it") ∷ (stamp, saying Intent.block "gate failing") ∷ []

courier_hears_example :
    ((run_agent said (start_courier notes "billing" [])).state ≡ all_heard notes "billing" said [])
    × ((run_agent said (start_courier notes "billing" [])).sent ≡ acknowledged notes "billing" said)
courier_hears_example = courier_hears notes "billing" said []
