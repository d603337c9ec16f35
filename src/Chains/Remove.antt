-- ===== src/Chains/Remove.antt =====
-- lib/list.c, `list_remove` with the element that is to go: the list loses it.
use diplomski_rad.Base.{
  ℕ, ◌≡◌, ◌≢◌, refl, ◌∙◌, ap, inl, inr, true, false, some, List, ◌==◌, arith, if◌then◌else◌,
  Bool-cases,
}
use diplomski_rad.Base.Members.{has, erase, IsOnce-erase}
use diplomski_rad.Threads.{null, End}
use diplomski_rad.Chains.{
  Store, unlink_next, unlink_prev, unlink_first, unlink_last, unlink, list_remove,
}
use diplomski_rad.Chains.Segments.{IsList, ne_null_of_has}
use diplomski_rad.Chains.Erase.{Unlinked, IsSeg-erase, apart}

-- What the two writes to headers do.
unlink_next_lem :
    (h : ℕ) (s : Store)
    → ((b : ℕ)
        → b ≢ null
        → ((unlink_next h s).hdr b).next
          ≡ (if b == (s.hdr h).prev then (s.hdr h).next else (s.hdr b).next))
      × ((b : ℕ) → ((unlink_next h s).hdr b).prev ≡ (s.hdr b).prev)
      × ((b : ℕ) → ((unlink_next h s).hdr b).object ≡ (s.hdr b).object)
      × ((unlink_next h s).list ≡ s.list)
unfolding unlink_next
unlink_next_lem h s = elim (Bool-cases ((s.hdr h).prev == null)) [
  | inl e ↦ rw e (
    (λ b nb. let no : (b == (s.hdr h).prev) ≡ false = ground (arith, e, nb) in rw no refl),
    λ b. refl,
    λ b. refl,
    refl,
  )
  | inr e ↦ rw e ((λ b nb. ground arith), λ b. ground arith, λ b. ground arith, refl)
]

unlink_prev_lem :
    (h : ℕ) (s : Store)
    → ((b : ℕ)
        → b ≢ null
        → ((unlink_prev h s).hdr b).prev
          ≡ (if b == (s.hdr h).next then (s.hdr h).prev else (s.hdr b).prev))
      × ((b : ℕ) → ((unlink_prev h s).hdr b).next ≡ (s.hdr b).next)
      × ((b : ℕ) → ((unlink_prev h s).hdr b).object ≡ (s.hdr b).object)
      × ((unlink_prev h s).list ≡ s.list)
unfolding unlink_prev
unlink_prev_lem h s = elim (Bool-cases ((s.hdr h).next == null)) [
  | inl e ↦ rw e (
    (λ b nb. let no : (b == (s.hdr h).next) ≡ false = ground (arith, e, nb) in rw no refl),
    λ b. refl,
    λ b. refl,
    refl,
  )
  | inr e ↦ rw e ((λ b nb. ground arith), λ b. ground arith, λ b. ground arith, refl)
]

-- What the two writes to the list do.
unlink_first_lem :
    (l h : ℕ) (s : Store)
    → ((unlink_first l h s).hdr ≡ s.hdr)
      × (((unlink_first l h s).list l).first
          ≡ (if (s.list l).first == h then (s.hdr h).next else (s.list l).first))
      × (((unlink_first l h s).list l).last ≡ (s.list l).last)
      × ((m : ℕ) → m ≢ l → (unlink_first l h s).list m ≡ s.list m)
unfolding unlink_first
unlink_first_lem l h s = elim (Bool-cases ((s.list l).first == h)) [
  | inl e ↦ rw e (refl, ground arith, ground arith, λ m ne. ground arith)
  | inr e ↦ rw e (refl, refl, refl, λ m ne. refl)
]

unlink_last_lem :
    (l h : ℕ) (s : Store)
    → ((unlink_last l h s).hdr ≡ s.hdr)
      × (((unlink_last l h s).list l).last
          ≡ (if (s.list l).last == h then (s.hdr h).prev else (s.list l).last))
      × (((unlink_last l h s).list l).first ≡ (s.list l).first)
      × ((m : ℕ) → m ≢ l → (unlink_last l h s).list m ≡ s.list m)
unfolding unlink_last
unlink_last_lem l h s = elim (Bool-cases ((s.list l).last == h)) [
  | inl e ↦ rw e (refl, ground arith, ground arith, λ m ne. ground arith)
  | inr e ↦ rw e (refl, refl, refl, λ m ne. refl)
]

-- After the removal of `r` from the list at `l`, which had the elements `xs`.
pub record Removed (l r : ℕ) (xs : List ℕ) (s s' : Store) : Type 0 where
  pub is_list : IsList s' l (erase r xs)
  pub lists : (m : ℕ) → m ≢ l → s'.list m ≡ s.list m
  pub objects : (b : ℕ) → (s'.hdr b).object ≡ (s.hdr b).object

unlink-Removed :
    (l r : ℕ) (s : Store) (xs : List ℕ)
    → IsList s l xs
    → has r xs ≡ true
    → Removed l r xs s (unlink l r s)
unfolding unlink
unlink-Removed l r s xs w there =
    let f = s.hdr in
    let ne_null = λ (b : ℕ) (i : has b xs ≡ true).
      ne_null_of_has f null (s.list l).first (s.list l).last b xs w.seg i in
    let no_null : has null xs ≡ false = elim (Bool-cases (has null xs)) [
      | inl e ↦ absurd (ne_null null e refl)
      | inr e ↦ e
    ] in
    let nr = ne_null r there in
    let (not_p, not_n) =
      apart f null (s.list l).first (s.list l).last r xs w.seg w.once no_null there in
    let r_p : (r == (f r).prev) ≡ false = ground (arith, not_p) in
    let r_n : (r == (f r).next) ≡ false = ground (arith, not_n) in
    let s1 = unlink_next r s in
    let s2 = unlink_prev r s1 in
    let s3 = unlink_first l r s2 in
    let a = unlink_next_lem r s in
    let b = unlink_prev_lem r s1 in
    let c = unlink_first_lem l r s2 in
    let d = unlink_last_lem l r s3 in
    let next1 : (s1.hdr r).next ≡ (f r).next = rw r_p at (a.0 r nr) in
    let next2 : (s2.hdr r).next ≡ (f r).next = b.1 r ∙ next1 in
    let prev_at = λ (q : ℕ) (nq : q ≢ null). rw (next1, a.1 r, a.1 q) at (b.0 q nq) in
    let prev2 : (s2.hdr r).prev ≡ (f r).prev = rw r_n at (prev_at r nr) in
    let lists2 : s2.list ≡ s.list = b.3 ∙ a.3 in
    let hdrs : (unlink_last l r s3).hdr ≡ s2.hdr = d.0 ∙ c.0 in
    let first2 : (s2.list l).first ≡ (s.list l).first = ap (λ t. (t l).first) lists2 in
    let last3 : (s3.list l).last ≡ (s.list l).last = c.2 ∙ ap (λ t. (t l).last) lists2 in
    let prev3 : (s3.hdr r).prev ≡ (f r).prev = ap (λ t. (t r).prev) c.0 ∙ prev2 in
    let start = d.2 ∙ c.1 in
    let start' : ((unlink_last l r s3).list l).first
        ≡ (if (s.list l).first == r then (f r).next else (s.list l).first) =
      rw (first2, next2) at start in
    let stop = d.1 in
    let stop' : ((unlink_last l r s3).list l).last
        ≡ (if (s.list l).last == r then (f r).prev else (s.list l).last) =
      rw (last3, prev3) at stop in
    let u : Unlinked f s2.hdr r = record {
      next_of = λ q nq nqr. b.1 q ∙ a.0 q nq;
      prev_of = λ q nq nqr. prev_at q nq;
    } in
    record {
      is_list = record {
        seg =
            rw (hdrs, start', stop')
              (IsSeg-erase f s2.hdr r u null (s.list l).first (s.list l).last xs w.seg w.once
                no_null there);
        once = IsOnce-erase r xs w.once;
      };
      lists = λ m nm. d.3 m nm ∙ c.3 m nm ∙ ap (λ t. t m) lists2;
      objects = λ q. ap (λ t. (t q).object) hdrs ∙ b.2 q ∙ a.2 q;
    }

-- `list_remove` with an element of the list, which may stand anywhere in it, returns its object,
-- and the list has the other elements in their order; other lists are as they were, and no object
-- has changed.
pub list_remove-Removed :
    (l : ℕ) (side : End) (r : ℕ) (s : Store) (xs : List ℕ)
    → l ≢ null
    → IsList s l xs
    → has r xs ≡ true
    → (s' : Store) × (list_remove l side r s ≡ some ((s.hdr r).object, s')) × Removed l r xs s s'
unfolding list_remove
list_remove-Removed l side r s xs nl w there =
    let nr : (r == null) ≡ false =
      ground (arith, ne_null_of_has s.hdr null (s.list l).first (s.list l).last r xs w.seg there) in
    let no : (l == null) ≡ false = ground (arith, nl) in
    (unlink l r s, rw (no, nr, nr) refl, unlink-Removed l r s xs w there)
