-- ===== src/Pcops/Runner.antt =====
-- The spanning-test runner (internal/pcops/rungate.go): the merge of the participants' branches into
-- the runner's worktree, and the executor that StartRunner gives to `ServeRunner`.
pub mod Merging
pub mod Verdicts
use parallel_consciousness.Prelude.{
  ◌-◌, String, ◌==◌, ◌<>◌, byte_len, slice, Bool, true, false, not, ◌&&◌, ◌||◌, Option, none, some,
  List, [], ◌∷◌, if◌then◌else◌, ltb, eqb, ℕ,
}
use parallel_consciousness.Prelude.Texts.{trim_space, has_text}
use parallel_consciousness.Prelude.Int.{ℤ}
use parallel_consciousness.Dict.{Dict, lookup, insert}
use parallel_consciousness.Gate.{Verdict}
use parallel_consciousness.Pcops.Config.{AgentDef, Config, effective_runner_timeout}

-- The error of a command: an exit status, or anything else, with its text.
pub data Failure : Type 0 where
  exit_error : ℕ → String → Failure
  other_error : String → Failure

-- What a command printed, and its error.
pub record Ran : Type 0 where
  pub out : String
  pub error : Option Failure

-- Git and the shell, over everything that they read and write.
-- `D` holds the other agents' work too: a command may find that they committed since the last one.
pub record Tools (D : Type 0) : Type 1 where
  pub git : List String → D → Ran × D
  pub shell : String → String → ℤ → D → Ran × D

-- `%v` of an error.
unfoldable pub error_text : Failure → String
error_text (exit_error n s) = s
error_text (other_error s) = s

-- `ee.ExitCode() != 1` after `errors.As`
unfoldable pub exits_with_one : Failure → Bool
exits_with_one (exit_error n s) = eqb n 1
exits_with_one (other_error s) = false

-- What `mergeAll` returns: the commits by branch, or a detail and the error.
pub data Merged : Type 0 where
  merged : Dict String → Merged
  not_merged : String → Failure → Merged

-- `participantOf`
unfoldable pub participant_of : List AgentDef → Dict String → Dict String
participant_of [] acc = acc
participant_of (ag ∷ ags) acc = participant_of ags (insert ag.branch ag.name acc)

-- The loop that names the tested commits by participant.
unfoldable pub tested_by : Dict String → Dict String → Dict String → Dict String
tested_by owner [] acc = acc
tested_by owner ((br, sha) ∷ rest) acc = elim (lookup br owner) [
  | none ↦ tested_by owner rest acc
  | some name ↦ tested_by owner rest (insert name sha acc)
]

-- `trim`: the last 2000 bytes. A rune that the cut splits is dropped, where Go keeps its last bytes.
unfoldable pub trim : String → String
trim s =
    let s' = trim_space s in
    if ltb 2000 (byte_len s') then slice s' (byte_len s' - 2000) (byte_len s') else s'

-- `isMergeConflict`
unfoldable pub is_merge_conflict : Failure → String → Bool
is_merge_conflict e out = if exits_with_one e then has_text out "CONFLICT" else false

module _ {D : Type 0} (t : Tools D) where
  -- `gitIn`
  unfoldable pub git_in : String → List String → D → Ran × D
  git_in dir args d = t.git ("-C" ∷ dir ∷ args) d

  -- `hasUnmergedPaths`
  unfoldable pub has_unmerged_paths : String → D → Bool × D
  has_unmerged_paths dir d =
      let (r, d') = git_in dir ("ls-files" ∷ "-u" ∷ []) d in
      (elim r.error [ none ↦ not (trim_space r.out == "") | some e ↦ false ], d')

  -- The part of `mergeAll` after a merge that failed with `e`.
  unfoldable pub abandon : String → String → Failure → String → D → Merged × D
  abandon dir br e out d =
      let known = is_merge_conflict e out in
      let asked = has_unmerged_paths dir d in
      let conflict = known || asked.0 in
      let d1 = if known then d else asked.1 in
      let d2 = (git_in dir ("merge" ∷ "--abort" ∷ []) d1).1 in
      if conflict
      then (not_merged ("merge conflict on " <> br <> ": " <> trim out) e, d2)
      else (not_merged ("merge failed on " <> br <> ": " <> error_text e <> ": " <> trim out) e, d2)

  -- The loop of `mergeAll` over the branches.
  unfoldable pub merge_branches : String → List String → Dict String → D → Merged × D
  merge_branches dir [] acc d = (merged acc, d)
  merge_branches dir (br ∷ rest) acc d =
      let (resolved, d1) = git_in dir ("rev-parse" ∷ br ∷ []) d in
      let sha = trim resolved.out in
      let (r, d2) = git_in dir ("merge" ∷ "--no-edit" ∷ "-q" ∷ sha ∷ []) d1 in
      elim resolved.error [
        | some e ↦ (
          not_merged
              ("merge failed on " <> br <> ": cannot resolve: " <> error_text e <> ": " <> sha) e,
          d1,
        )
        | none ↦ elim r.error [
          | some e ↦ abandon dir br e r.out d2
          | none ↦ merge_branches dir rest (insert br sha acc) d2
        ]
      ]

  -- `mergeAll`
  unfoldable pub merge_all : String → List String → D → Merged × D
  merge_all dir branches d =
      let (r, d1) = git_in dir ("reset" ∷ "--hard" ∷ "-q" ∷ "main" ∷ []) d in
      let (c, d2) = git_in dir ("clean" ∷ "-qfd" ∷ []) d1 in
      elim r.error [
        | some e ↦ (not_merged (trim r.out) e, d1)
        | none ↦ elim c.error [
          | some e ↦ (not_merged (trim c.out) e, d2)
          | none ↦ merge_branches dir branches [] d2
        ]
      ]

  -- The executor of `StartRunner`, and whether it ran the shell on what.
  unfoldable pub execute : Config → String → List String → String → D → Verdict × Option D × D
  execute cfg dir branches gate_id d =
      let (result, d1) = merge_all dir branches d in
      elim result [
        | not_merged detail e ↦
            (record { gate_id = gate_id; passed = false; detail = detail; versions = [] }, none, d1)
        | merged shas ↦
            let tested = tested_by (participant_of cfg.agents []) shas [] in
            let (r, d2) = t.shell dir cfg.gate.run (effective_runner_timeout cfg) d1 in
            elim r.error [
              | some e ↦ (
                record {
                  gate_id = gate_id;
                  passed = false;
                  detail = trim r.out;
                  versions = tested;
                },
                some d1,
                d2,
              )
              | none ↦ (
                record { gate_id = gate_id; passed = true; detail = ""; versions = tested },
                some d1,
                d2,
              )
            ]
      ]
