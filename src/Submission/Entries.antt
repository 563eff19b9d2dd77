-- ===== src/Submission/Entries.antt =====
-- The entries of a submission queue (src/backend/execution_submission_queue.cc): in the order of
-- their sequence numbers, with sums and tests over all of them.
use glimmer.Prelude.{
  ℕ, suc, ◌+◌, ◌≤◌, ◌≡◌, refl, Bool, true, false, ◌&&◌, none, some, [], ◌∷◌, ◌++◌, arith, leb,
  if◌then◌else◌, lookup, assign, remove, lookup-assign, nat_eq, length,
}
use glimmer.Submission.{Entry, Entries, any_issuing, is_issuing}

-- The numbers rise, from `lo` on and all below `hi`.
unfoldable pub ascends : ℕ → Entries → ℕ → Bool
ascends lo [] hi = leb lo hi
ascends lo ((k, e) ∷ es) hi = leb lo k && ascends (suc k) es hi

unfoldable pub total : (Entry → ℕ) → Entries → ℕ
total w [] = 0
total w ((k, e) ∷ es) = w e + total w es

unfoldable pub all : (Entry → Bool) → Entries → Bool
all p [] = true
all p ((k, e) ∷ es) = p e && all p es

pub ascends-le : (lo hi : ℕ) (es : Entries) → ascends lo es hi ≡ true → lo ≤ hi
unfolding ascends
ascends-le lo hi [] a = ground arith
ascends-le lo hi ((k, e) ∷ es) a = ground (arith, ascends-le (suc k) hi es)

pub ascends_weaken :
    (lo lo' hi : ℕ) (es : Entries) → lo' ≤ lo → ascends lo es hi ≡ true → ascends lo' es hi ≡ true
unfolding ascends
ascends_weaken lo lo' hi [] h a = ground arith
ascends_weaken lo lo' hi ((k, e) ∷ es) h a = ground arith

pub ascends_widen :
    (lo hi hi' : ℕ) (es : Entries) → hi ≤ hi' → ascends lo es hi ≡ true → ascends lo es hi' ≡ true
unfolding ascends
ascends_widen lo hi hi' [] h a = ground arith
ascends_widen lo hi hi' ((k, e) ∷ es) h a = ground (arith, ascends_widen (suc k) hi hi' es h)

pub ascends-append :
    (lo hi : ℕ) (e : Entry) (es : Entries)
    → ascends lo es hi ≡ true
    → ascends lo (es ++ (hi, e) ∷ []) (suc hi) ≡ true
unfolding ascends
ascends-append lo hi e [] a = ground arith
ascends-append lo hi e ((k, x) ∷ es) a = ground (arith, ascends-append (suc k) hi e es)

pub ascends-assign :
    (lo hi k : ℕ) (e : Entry) (es : Entries)
    → ascends lo es hi ≡ true
    → ascends lo (assign k e es) hi ≡ true
unfolding ascends assign
ascends-assign lo hi k e [] a = ground arith
ascends-assign lo hi k e ((j, x) ∷ es) a = ground (arith, ascends-assign (suc j) hi k e es)

pub lookup_below :
    (lo hi k : ℕ) (es : Entries) → ascends lo es hi ≡ true → suc k ≤ lo → lookup k es ≡ none
unfolding ascends lookup
lookup_below lo hi k [] a h = refl
lookup_below lo hi k ((j, x) ∷ es) a h = ground (arith, lookup_below (suc j) hi k es)

pub lookup_bounded :
    (lo hi k : ℕ) (e : Entry) (es : Entries)
    → ascends lo es hi ≡ true
    → lookup k es ≡ some e
    → (lo ≤ k) × (suc k ≤ hi)
unfolding ascends lookup
lookup_bounded lo hi k e [] a h = cc
lookup_bounded lo hi k e ((j, x) ∷ es) a h =
    ground (arith, lookup_bounded (suc j) hi k e es, ascends-le (suc j) hi es)

pub remove_below :
    (lo hi k : ℕ) (es : Entries) → ascends lo es hi ≡ true → suc k ≤ lo → remove k es ≡ es
unfolding ascends remove
remove_below lo hi k [] a h = refl
remove_below lo hi k ((j, x) ∷ es) a h = ground (arith, remove_below (suc j) hi k es)

pub ascends-remove :
    (lo hi k : ℕ) (es : Entries) → ascends lo es hi ≡ true → ascends lo (remove k es) hi ≡ true
unfolding ascends remove
ascends-remove lo hi k [] a = ground arith
ascends-remove lo hi k ((j, x) ∷ es) a =
    ground (arith, ascends-remove (suc j) hi k es, ascends_weaken (suc j) lo hi (remove k es))

pub length-assign : (k : ℕ) (e : Entry) (es : Entries) → length (assign k e es) ≡ length es
unfolding assign
length-assign k e [] = refl
length-assign k e ((j, x) ∷ es) = ground (arith, length-assign k e es)

pub length-remove : (k : ℕ) (es : Entries) → length (remove k es) ≤ length es
unfolding remove
length-remove k [] = ground arith
length-remove k ((j, x) ∷ es) = ground (arith, length-remove k es)

module _ (w : Entry → ℕ) where
  pub total-append :
      (k : ℕ) (e : Entry) (es : Entries) → total w (es ++ (k, e) ∷ []) ≡ total w es + w e
  unfolding total
  total-append k e [] = ground arith
  total-append k e ((j, x) ∷ es) = ground (arith, total-append k e es)

  pub total-assign :
      (k : ℕ) (e e' : Entry) (es : Entries)
      → lookup k es ≡ some e
      → total w (assign k e' es) + w e ≡ total w es + w e'
  unfolding total assign lookup
  total-assign k e e' [] h = cc
  total-assign k e e' ((j, x) ∷ es) h = ground (arith, total-assign k e e' es)

  pub total-remove :
      (lo hi k : ℕ) (e : Entry) (es : Entries)
      → ascends lo es hi ≡ true
      → lookup k es ≡ some e
      → total w (remove k es) + w e ≡ total w es
  unfolding total remove lookup ascends
  total-remove lo hi k e [] a h = cc
  total-remove lo hi k e ((j, x) ∷ es) a h =
      ground (arith, total-remove (suc j) hi k e es, remove_below (suc j) hi k es)

module _ (p : Entry → Bool) where
  pub all-append :
      (k : ℕ) (e : Entry) (es : Entries)
      → all p es ≡ true
      → p e ≡ true
      → all p (es ++ (k, e) ∷ []) ≡ true
  unfolding all
  all-append k e [] a h = ground arith
  all-append k e ((j, x) ∷ es) a h = ground (arith, all-append k e es)

  pub all-assign :
      (k : ℕ) (e : Entry) (es : Entries)
      → all p es ≡ true
      → p e ≡ true
      → all p (assign k e es) ≡ true
  unfolding all assign
  all-assign k e [] a h = refl
  all-assign k e ((j, x) ∷ es) a h = ground (arith, all-assign k e es)

  pub all-remove : (k : ℕ) (es : Entries) → all p es ≡ true → all p (remove k es) ≡ true
  unfolding all remove
  all-remove k [] a = refl
  all-remove k ((j, x) ∷ es) a = ground (arith, all-remove k es)

  pub all-lookup :
      (k : ℕ) (e : Entry) (es : Entries) → all p es ≡ true → lookup k es ≡ some e → p e ≡ true
  unfolding all lookup
  all-lookup k e [] a h = cc
  all-lookup k e ((j, x) ∷ es) a h = ground (arith, all-lookup k e es)

pub lookup_assigned :
    (k : ℕ) (e e' : Entry) (es : Entries)
    → lookup k es ≡ some e
    → lookup k (assign k e' es) ≡ some e'
lookup_assigned k e e' es h = ground (arith, lookup-assign k k e' es)

-- A command that is with the executor counts as 1.
abbrev pub burden : Entry → ℕ
burden e = if is_issuing e.phase then 1 else 0

pub any_issuing-total : (es : Entries) → any_issuing es ≡ false → total burden es ≡ 0
unfolding any_issuing total
any_issuing-total [] h = refl
any_issuing-total ((j, x) ∷ es) h = ground (arith, any_issuing-total es)
