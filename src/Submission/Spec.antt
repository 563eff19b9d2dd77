-- ===== src/Submission/Spec.antt =====
-- What a submission queue promises its clients, without payloads, tokens and locks: the board of
-- the commands that it still knows and how the board may change. The refinement is for
-- src/backend/execution_submission_queue.cc.
pub mod Refine
use glimmer.Prelude.{
  ℕ, ◌≡◌, refl, Bool, true, false, not, ◌&&◌, ◌||◌, some, List, [], ◌∷◌, ◌++◌, ltb, lookup, assign,
  remove, nat_eq,
}
use glimmer.Submission.{Entries}
use glimmer.Submission.Effect.{
  Status, waiting, running, answered, suspended, continuing, over, status_of, may_move,
}

abbrev pub Board : Type 0
Board = List (ℕ × Status)

unfoldable pub board : Entries → Board
board [] = []
board ((k, e) ∷ es) = (k, status_of e) ∷ board es

-- All commands of the board are earlier.
unfoldable pub is_later : ℕ → Board → Bool
is_later n [] = true
is_later n ((k, x) ∷ b) = ltb k n && is_later n b

abbrev pub is_busy : Status → Bool
is_busy running = true
is_busy continuing = true
is_busy _ = false

unfoldable pub any_busy : Board → Bool
any_busy [] = false
any_busy ((k, x) ∷ b) = is_busy x || any_busy b

-- One step of the service. A command is started or continued only when no other one runs, and it
-- leaves the board only when it is over.
pub data Step : Board → Board → Type 0 where
  stays : {b d : Board} → d ≡ b → Step b d
  accepts : {b d : Board} (k : ℕ) → is_later k b ≡ true → d ≡ b ++ (k, waiting) ∷ [] → Step b d
  moves :
      {b d : Board} (k : ℕ) (x y : Status)
      → lookup k b ≡ some x
      → may_move x y ≡ true
      → d ≡ assign k y b
      → Step b d
  starts :
      {b d : Board} (k : ℕ)
      → lookup k b ≡ some waiting
      → any_busy b ≡ false
      → d ≡ assign k running b
      → Step b d
  continues :
      {b d : Board} (k : ℕ)
      → lookup k b ≡ some suspended
      → any_busy b ≡ false
      → d ≡ assign k continuing b
      → Step b d
  drops : {b d : Board} (k : ℕ) → lookup k b ≡ some over → d ≡ remove k b → Step b d

pub data Reaches : Board → Board → Type 0 where
  here : {b d : Board} → d ≡ b → Reaches b d
  next : {b d f : Board} → Step b d → Reaches d f → Reaches b f
