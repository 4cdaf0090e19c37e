-- ===== src/Think.antt =====
-- The filter of assets/backend/agent.py that takes `<think>` blocks out of a streamed response:
-- the buffer loop of `ChatAgent._stream_response`, over lists of code points.
pub mod Tags
pub mod Strip
pub mod Drain
use rag_agent_chatbot.Prelude.{
  ℕ, zero, suc, ◌+◌, ◌-◌, Bool, true, false, not, Option, none, some, List, [], ◌∷◌, ◌++◌, ◌==◌,
  if◌then◌else◌, length, take, drop, any_of, ltb,
}
use Prim.Native.Nat.{min}
use rag_agent_chatbot.Text.{Text, codes, starts_with, ends_with, find, lstrip}

-- `<think>`
abbrev pub open_tag : Text
open_tag = b'<' ∷ b't' ∷ b'h' ∷ b'i' ∷ b'n' ∷ b'k' ∷ b'>' ∷ []

-- `</think>`
abbrev pub close_tag : Text
close_tag = b'<' ∷ b'/' ∷ b't' ∷ b'h' ∷ b'i' ∷ b'n' ∷ b'k' ∷ b'>' ∷ []

-- The tuple of `_pending.endswith((…))`: every nonempty prefix of the closing tag, itself too.
abbrev pub close_partials : List Text
close_partials =
    take 1 close_tag
    ∷ take 2 close_tag
    ∷ take 3 close_tag
    ∷ take 4 close_tag
    ∷ take 5 close_tag
    ∷ take 6 close_tag
    ∷ take 7 close_tag
    ∷ take 8 close_tag
    ∷ []

unfoldable pub held_close : Text → Bool
held_close pending = any_of (λ s. ends_with s pending) close_partials

-- `for i in range(i, i + rounds): if _pending.endswith("<think>"[:i]): break`
unfoldable pub scan_open : ℕ → ℕ → Text → Option ℕ
scan_open zero i pending = none
scan_open (suc rounds) i pending =
    let rest = scan_open rounds (suc i) pending in
    if ends_with (take i open_tag) pending then some i else rest

-- `range(1, min(len("<think>"), len(_pending) + 1))`
unfoldable pub held_open : Text → Option ℕ
unfolding scan_open
held_open pending = scan_open (min 7 (length pending + 1) - 1) 1 pending

-- The loop's variables: `emit`, `_in_think_block`, `_pending`.
pub record Buffer : Type 0 where
  pub emit : Text
  pub in_think : Bool
  pub pending : Text

-- The `for … else` outside a block: what ends like an opening tag waits for more data.
unfoldable pub hold_back : Text → Text → Option ℕ → Buffer
hold_back emit pending (some i) = record {
  emit = emit ++ take (length pending - i) pending;
  in_think = false;
  pending = drop (length pending - i) pending;
}
hold_back emit pending none = record { emit = emit ++ pending; in_think = false; pending = [] }

-- `while _pending:`. `none` means that the fuel ran out.
unfoldable pub drain : ℕ → Bool → Text → Text → Option Buffer
unfolding held_close held_open hold_back
drain zero in_think pending emit = none
drain (suc fuel) in_think [] emit = some (record { emit = emit; in_think = in_think; pending = [] })
drain (suc fuel) true (c ∷ cs) emit =
    let pending : Text = c ∷ cs in
    elim (find close_tag pending) [
      | some close_idx ↦ drain fuel false (drop (close_idx + 8) pending) emit
      | none ↦
          if held_close pending
          then some (record { emit = emit; in_think = true; pending = pending })
          else some (record { emit = emit; in_think = true; pending = [] })
    ]
drain (suc fuel) false (c ∷ cs) emit =
    let pending : Text = c ∷ cs in
    elim (find open_tag pending) [
      | some open_idx ↦
          drain fuel true (drop (open_idx + 7) pending) (emit ++ take open_idx pending)
      | none ↦ some (hold_back emit pending (held_open pending))
    ]

-- One round of the loop takes at least a tag off the buffer, so this much fuel is enough.
unfoldable pub feed : Bool → Text → Text → Option Buffer
unfolding drain
feed in_think pending content =
    drain (suc (length (pending ++ content))) in_think (pending ++ content) []
