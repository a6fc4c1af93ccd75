-- ===== src/Bookmark/Count.antt =====
-- What a bookmark counts after any history of marks.
use samizdat.Prelude.{
  ℕ, suc, ◌+◌, ◌<◌, ◌*◌, ◌%◌, ◌^◌, ◌≡◌, ◌≢◌, refl, ap, ◌∙◌, not, List, [], ◌∷◌, Option, none, some,
  arith, ◌==◌, map,
}
use samizdat.Hash.{Hash, hash_eq_iff}
use samizdat.Bookmark.{
  MergeOperation, increment, set, no_change, associative, eval_on_zero, BookmarkType, reference,
  user, Bookmark, Bincode, mark_operation, unmark_operation, write, apply_entry, key, mark_with,
  unmark_with, mark, unmark, get_count, is_marked,
}
use samizdat.Store.{Table}
use samizdat.Bookmark.Merge.{
  RoundTrips, combine, stored, or_default, full_merge-encode, decode-stored,
}

pub data Action : Type 0 where
  marked unmarked : Action

-- `ObjectRef::bookmark`
abbrev pub bookmark : BookmarkType → Hash → Bookmark
bookmark ty object = record { ty = ty; object = object }

module _ (b : Bincode) (round_trip : RoundTrips b) where
  open b use {encode}

  pub run : Table → Bookmark → List Action → Table
  run t m [] = t
  run t m (marked ∷ actions) = run (mark b t m) m actions
  run t m (unmarked ∷ actions) = run (unmark b t m) m actions

  abbrev operation : BookmarkType → Action → MergeOperation
  operation ty marked = mark_operation b ty
  operation ty unmarked = unmark_operation b ty

  mark-stored :
      (t : Table) (m : Bookmark) (o : Option MergeOperation)
      → t (key b m) ≡ stored b o
      → (mark b t m (key b m)
          ≡ stored b (some (associative (or_default o) (mark_operation b m.ty))))
        × (unmark b t m (key b m)
            ≡ stored b (some (associative (or_default o) (unmark_operation b m.ty))))
  unfolding mark unmark mark_with unmark_with write apply_entry combine
  mark-stored t m o h =
      let same = (hash_eq_iff (key b m) (key b m)).1 refl in
      (
        rw (same, h) (full_merge-encode b round_trip o (mark_operation b m.ty ∷ [])),
        rw (same, h) (full_merge-encode b round_trip o (unmark_operation b m.ty ∷ [])),
      )

  run-stored :
      (actions : List Action) (t : Table) (m : Bookmark) (o : Option MergeOperation)
      → t (key b m) ≡ stored b o
      → (final : Option MergeOperation) × (run t m actions (key b m) ≡ stored b final)
        × (or_default final ≡ combine (or_default o) (map (operation m.ty) actions))
  unfolding run combine
  run-stored [] t m o h = (o, h, refl)
  run-stored (marked ∷ actions) t m o h =
      run-stored actions (mark b t m) m (some (associative (or_default o) (mark_operation b m.ty)))
        (mark-stored t m o h).0
  run-stored (unmarked ∷ actions) t m o h =
      run-stored actions (unmark b t m) m
        (some (associative (or_default o) (unmark_operation b m.ty))) (mark-stored t m o h).1

  -- The operation that a history leaves at a key that was empty.
  run_count :
      (actions : List Action) (t : Table) (m : Bookmark)
      → t (key b m) ≡ none
      → get_count b (run t m actions) m
        ≡ some (eval_on_zero (combine no_change (map (operation m.ty) actions)))
  unfolding get_count
  run_count actions t m h =
      let (final, e, f) = run-stored actions t m none h in
      rw (e, decode-stored b round_trip final, f) refl

  -- How often each action stands in a history.
  abbrev pub marks : List Action → ℕ
  marks [] = 0
  marks (marked ∷ actions) = suc (marks actions)
  marks (unmarked ∷ actions) = marks actions

  abbrev pub unmarks : List Action → ℕ
  unmarks [] = 0
  unmarks (marked ∷ actions) = unmarks actions
  unmarks (unmarked ∷ actions) = suc (unmarks actions)

  reference_sum :
      (actions : List Action) (n : ℕ)
      → n < 65536
      → combine (increment n) (map (operation reference) actions)
        ≡ increment ((n + marks actions + 65535 * unmarks actions) % 2 ^ 16)
  unfolding combine associative
  reference_sum [] n h = ap increment (omega arith)
  reference_sum (marked ∷ actions) n h =
      reference_sum actions ((n + 1) % 2 ^ 16) (omega arith) ∙ ap increment (omega arith)
  reference_sum (unmarked ∷ actions) n h =
      reference_sum actions ((n + 65535) % 2 ^ 16) (omega arith) ∙ ap increment (omega arith)

  -- From a table without the bookmark, after any history of marks and unmarks of a reference the
  -- count is the marks less the unmarks as an `i16`, and `is_marked` says whether the two numbers
  -- differ modulo 2 ^ 16.
  pub reference-count :
      (actions : List Action) (t : Table) (object : Hash)
      → t (key b (bookmark reference object)) ≡ none
      → let m = bookmark reference object in
        (get_count b (run t m actions) m
          ≡ some ((marks actions + 65535 * unmarks actions) % 2 ^ 16))
        × (is_marked b (run t m actions) m
            ≡ some (not (marks actions % 2 ^ 16 == unmarks actions % 2 ^ 16)))
  unfolding is_marked eval_on_zero
  reference-count actions t object h =
      let m = bookmark reference object in
      let sum = reference_sum actions 0 (omega arith) in
      let count =
        run_count actions t m h
        ∙ ap (λ o. some (eval_on_zero o)) sum
        ∙ ap some (same_start (marks actions) (unmarks actions)) in
      (count, rw count (ap some (balance (marks actions) (unmarks actions))))
    where
      same_start : (x y : ℕ) → (0 + x + 65535 * y) % 2 ^ 16 ≡ (x + 65535 * y) % 2 ^ 16
      same_start x y = omega arith

      balance : (x y : ℕ) → not ((x + 65535 * y) % 2 ^ 16 == 0) ≡ not (x % 2 ^ 16 == y % 2 ^ 16)
      balance x y = ground arith

  abbrev pub last_action : Action → List Action → Action
  last_action a [] = a
  last_action a (c ∷ actions) = last_action c actions

  abbrev pub as_count : Action → ℕ
  as_count marked = 1
  as_count unmarked = 0

  user_last :
      (actions : List Action) (start : MergeOperation) (a : Action)
      → combine start (map (operation user) (a ∷ actions)) ≡ set (as_count (last_action a actions))
  unfolding combine associative
  user_last [] (increment n) marked = refl
  user_last [] (increment n) unmarked = refl
  user_last [] (set n) marked = refl
  user_last [] (set n) unmarked = refl
  user_last (c ∷ actions) start a = user_last actions (associative start (operation user a)) c

  -- From a table without the bookmark, after any non-empty history of marks and unmarks by the user
  -- the count is 1 if the last was a mark, and 0 if it was an unmark.
  pub user-count :
      (a : Action) (actions : List Action) (t : Table) (object : Hash)
      → t (key b (bookmark user object)) ≡ none
      → let m = bookmark user object in
        get_count b (run t m (a ∷ actions)) m ≡ some (as_count (last_action a actions))
  unfolding eval_on_zero
  user-count a actions t object h =
      let m = bookmark user object in
      run_count (a ∷ actions) t m h
      ∙ ap (λ o. some (eval_on_zero o)) (user_last actions no_change a)

  -- Marking or unmarking leaves the table alone at every other key.
  pub mark_elsewhere :
      (t : Table) (m : Bookmark) (k : List ℕ)
      → k ≢ key b m
      → (mark b t m k ≡ t k) × (unmark b t m k ≡ t k)
  unfolding mark unmark mark_with unmark_with write apply_entry
  mark_elsewhere t m k h =
      (ground (arith, (hash_eq_iff k (key b m)).0), ground (arith, (hash_eq_iff k (key b m)).0))
