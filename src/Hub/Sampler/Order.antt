-- ===== src/Hub/Sampler/Order.antt =====
-- In which order `sample` yields the nodes.
use mathlib.Core.List.{Perm, perm_middle}
use mathlib.Core.List.Perm
use samizdat.Prelude.{
  ℕ, ◌≤◌, inl, inr, List, [], ◌∷◌, ◌++◌, append-nil, ltb, arith, Bool-cases, ltb→lt,
}
use samizdat.Hub.Sampler.{push_entry, push_all, sample}

module _ {A : Type 0} (sample_priority : A → ℕ) where
  abbrev pub AllBelow : ℕ → List A → Type 0
  AllBelow bound [] = Unit
  AllBelow bound (a ∷ queue) = (sample_priority a ≤ bound) × AllBelow bound queue

  -- No entry comes before one of a higher priority.
  abbrev pub Descending : List A → Type 0
  Descending [] = Unit
  Descending (a ∷ queue) = AllBelow (sample_priority a) queue × Descending queue

  push_entry-Perm : (a : A) (queue : List A) → Perm (push_entry sample_priority a queue) (a ∷ queue)
  unfolding push_entry
  push_entry-Perm a [] = Perm.refl _
  push_entry-Perm a (b ∷ queue) = elim (Bool-cases (ltb (sample_priority a) (sample_priority b))) [
    | inl h ↦ rw h (Perm.trans (Perm.cons b (push_entry-Perm a queue)) (Perm.swap a b queue))
    | inr h ↦ rw h (Perm.refl _)
  ]

  push_all-Perm :
      (queue nodes : List A) → Perm (push_all sample_priority queue nodes) (nodes ++ queue)
  unfolding push_all
  push_all-Perm queue [] = Perm.refl _
  push_all-Perm queue (a ∷ nodes) =
      Perm.trans (push_all-Perm (push_entry sample_priority a queue) nodes)
        (Perm.trans (Perm.append_left nodes (push_entry-Perm a queue)) (perm_middle nodes queue))

  AllBelow-weaken :
      (queue : List A) (low high : ℕ) → low ≤ high → AllBelow low queue → AllBelow high queue
  AllBelow-weaken [] low high le h = tt
  AllBelow-weaken (a ∷ queue) low high le h =
      (omega (arith, h.0), AllBelow-weaken queue low high le h.1)

  push_entry-AllBelow :
      (a : A) (queue : List A) (bound : ℕ)
      → sample_priority a ≤ bound
      → AllBelow bound queue
      → AllBelow bound (push_entry sample_priority a queue)
  unfolding push_entry
  push_entry-AllBelow a [] bound le h = (le, tt)
  push_entry-AllBelow a (b ∷ queue) bound le h =
      elim (Bool-cases (ltb (sample_priority a) (sample_priority b))) [
        | inl e ↦ rw e (h.0, push_entry-AllBelow a queue bound le h.1)
        | inr e ↦ rw e (le, h)
      ]

  push_entry-Descending :
      (a : A) (queue : List A) → Descending queue → Descending (push_entry sample_priority a queue)
  unfolding push_entry
  push_entry-Descending a [] h = (tt, tt)
  push_entry-Descending a (b ∷ queue) h =
      elim (Bool-cases (ltb (sample_priority a) (sample_priority b))) [
        | inl e ↦ rw e (
          push_entry-AllBelow a queue (sample_priority b) (omega (arith, ltb→lt _ _ e)) h.0,
          push_entry-Descending a queue h.1,
        )
        | inr e ↦ rw e ((ground arith, AllBelow-weaken queue _ _ (ground arith) h.0), h)
      ]

  push_all-Descending :
      (queue nodes : List A) → Descending queue → Descending (push_all sample_priority queue nodes)
  unfolding push_all
  push_all-Descending queue [] h = h
  push_all-Descending queue (a ∷ nodes) h =
      push_all-Descending (push_entry sample_priority a queue) nodes
        (push_entry-Descending a queue h)

  -- `sample` yields each of the nodes exactly as often as they were given, and none comes before one
  -- of a higher priority.
  pub sample-Descending :
      (nodes : List A)
      → Perm (sample sample_priority nodes) nodes × Descending (sample sample_priority nodes)
  sample-Descending nodes = (
    Perm.trans (push_all-Perm [] nodes) (rw (append-nil nodes) (Perm.refl _)),
    push_all-Descending [] nodes tt,
  )
