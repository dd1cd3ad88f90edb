-- ===== src/Examples/Agents.antt =====
-- An agent that counts the blocks it handles (pkg/agent/agent.go).
use parallel_consciousness.Prelude.{ℕ, suc, ◌≡◌, refl, none, some, [], ◌∷◌, take}
use parallel_consciousness.Protocol.{Intent, intent_text, Message, Stamp, to_agent}
use parallel_consciousness.Agent.{
  Handler, Agent, new_agent, on, interrupted, note_urgent, dispatch, run_agent,
}
use parallel_consciousness.Agent.Replies.{urgent_oldest}

abbrev stamp : Stamp
stamp = record { uuid = "s"; now = 5 }

abbrev mail : Intent → Message
mail i = record {
  id = "m1";
  conversation_id = "c1";
  in_reply_to = "";
  from = to_agent "gateway";
  to = to_agent "billing";
  intent = i;
  body = [];
  timestamp = 4;
  deadline = 0;
}

counts : Handler ℕ
counts m n = record { sends = []; answer = none; after = suc n }

abbrev counter : Agent ℕ
unfolding on new_agent
counter = on Intent.block counts (new_agent "billing" 0)

two_blocks :
    (interrupted
      (run_agent ((stamp, mail Intent.block) ∷ (stamp, mail Intent.block) ∷ []) counter)).0
    ≡ some (mail Intent.block)
unfolding interrupted run_agent dispatch note_urgent intent_text counter
two_blocks = refl

urgent_oldest_example :
    (run_agent ((stamp, mail Intent.block) ∷ (stamp, mail Intent.inform) ∷ []) counter).urgent
    ≡ take 8 (mail Intent.block ∷ [])
unfolding intent_text counter
urgent_oldest_example =
    urgent_oldest ((stamp, mail Intent.block) ∷ (stamp, mail Intent.inform) ∷ []) counter refl
