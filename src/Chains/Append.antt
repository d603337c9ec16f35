-- ===== src/Chains/Append.antt =====
-- lib/list.c, `list_append` and `list_prepend`: the list gets its new element at the end or at the
-- start.
use diplomski_rad.Base.{
  ℕ, ◌≡◌, ◌≢◌, refl, true, false, ◌||◌, some, List, [], ◌∷◌, ◌++◌, ◌==◌, arith,
}
use diplomski_rad.Base.Members.{has, IsOnce-snoc, has-snoc}
use diplomski_rad.Threads.{null, End, at_first, at_last}
use diplomski_rad.Chains.{
  Store, set_prev, set_next, set_object, set_first, set_last, list_append, list_prepend, list_get,
}
use diplomski_rad.Chains.Segments.{
  IsList, IsSeg-frame, has-last, ne_null_of_has, Follows, IsSeg-snoc,
}

-- After the call: the list at `l` is `xs`, the element `h` stands for `object`, and no other list
-- and no element outside `xs` has changed.
-- `list_get` returns the object from the end where it was put.
pub record Added (side : End) (l object h : ℕ) (xs : List ℕ) (s s' : Store) : Type 0 where
  pub is_list : IsList s' l xs
  pub stands : (s'.hdr h).object ≡ object
  pub got : list_get l side s' ≡ some object
  pub lists : (m : ℕ) → m ≢ l → s'.list m ≡ s.list m
  pub elsewhere : (b : ℕ) → has b xs ≡ false → s'.hdr b ≡ s.hdr b

has_left : (b : ℕ) (xs : List ℕ) (h : ℕ) → (has b xs || (b == h)) ≡ false → has b xs ≡ false
has_left b xs h e = ground (arith, e)

out_tail : (x : ℕ) (xs : List ℕ) (h : ℕ) → has h (x ∷ xs) ≡ false → has h xs ≡ false
unfolding has
out_tail x xs h e = ground (arith, e)

module _ (l object h : ℕ) (s : Store) (nl : l ≢ null) (no : object ≢ null) (nh : h ≢ null) where
  valid : ((l == null) || (object == null) || (h == null)) ≡ false
  valid = ground (arith, nl, no, nh)

  get_l : (l == null) ≡ false
  get_l = ground (arith, nl)

  get_h : (h == null) ≡ false
  get_h = ground (arith, nh)

  me : (l == l) ≡ true
  me = ground arith

  -- `list_append` puts an element that is not in the list at its end: the list has the elements it
  -- had and then the new one, `list_get` returns its object from the end, and other lists are as
  -- they were.
  pub list_append-Added :
      (xs : List ℕ)
      → IsList s l xs
      → has h xs ≡ false
      → (s' : Store) × (list_append l object h s ≡ some s')
        × Added at_last l object h (xs ++ h ∷ []) s s'
  unfolding list_append list_get has
  list_append-Added [] w out =
      let none_yet : ((s.list l).first == null) ≡ true = ground (arith, w.seg.0) in
      let s1 = set_next h null (set_object h object s) in
      (
        set_prev h null (set_first l h (set_last l h s1)),
        rw (valid, none_yet) refl,
        record {
          is_list = record {
            seg = (ground arith, nh, ground arith, (ground arith, ground arith));
            once = (refl, tt);
          };
          stands = ground arith;
          got = rw (get_l, me, get_h) (ground arith);
          lists = λ m ne. ground arith;
          elsewhere = λ b o. ground arith;
        },
      )
  list_append-Added (x ∷ xs) w out =
      let z = (s.list l).last in
      let some_there : ((s.list l).first == null) ≡ false = ground (arith, w.seg.0, w.seg.1) in
      let z_in = has-last s.hdr null (s.list l).first z x xs w.seg in
      let nz = ne_null_of_has s.hdr null (s.list l).first z z (x ∷ xs) w.seg z_in in
      let z_there : (z == null) ≡ false = ground (arith, nz) in
      let ne : z ≢ h = λ q. cc (z_in, out, q) in
      let s1 = set_next h null (set_object h object s) in
      let s' = set_last l h (set_prev h z (set_next z h s1)) in
      let follows : Follows s.hdr s'.hdr z h = record {
        same = λ b nb nbh. ground (arith, nb, nbh);
        before = ground (arith, ne);
        after = ground (arith, ne);
        back = ground (arith, ne);
        end = ground (arith, ne);
      } in
      (
        s',
        rw (valid, some_there, z_there) refl,
        record {
          is_list = record {
            seg = rw me (
                IsSeg-snoc s.hdr s'.hdr null (s.list l).first z h x xs w.seg w.once out nh follows);
            once = IsOnce-snoc h (x ∷ xs) w.once out;
          };
          stands = ground (arith, ne);
          got = rw (get_l, me, get_h) (ground (arith, ne));
          lists = λ m nm. ground arith;
          elsewhere = λ b o.
              let parts : (has b (x ∷ xs) || (b == h)) ≡ false = rw (has-snoc b h (x ∷ xs)) at o in
              let not_z : b ≢ z = λ q. cc (z_in, q, has_left b (x ∷ xs) h parts) in
              ground (arith, parts, not_z);
        },
      )

  -- `list_prepend` puts an element that is not in the list at its start: the list has the new
  -- element and then those it had, `list_get` returns its object from the start, and other lists
  -- are as they were.
  list_prepend-Added :
      (xs : List ℕ)
      → IsList s l xs
      → has h xs ≡ false
      → (s' : Store) × (list_prepend l object h s ≡ some s')
        × Added at_first l object h (h ∷ xs) s s'
  unfolding list_prepend list_get has
  list_prepend-Added [] w out =
      let none_yet : ((s.list l).first == null) ≡ true = ground (arith, w.seg.0) in
      let s1 = set_prev h null (set_object h object s) in
      let s2 = set_next h (s.list l).first s1 in
      (
        set_first l h (set_last l h s2),
        rw (valid, none_yet) refl,
        record {
          is_list = record {
            seg = (ground arith, nh, ground arith, (ground (arith, w.seg.0), ground arith));
            once = (refl, tt);
          };
          stands = ground arith;
          got = rw (get_l, me, get_h) (ground arith);
          lists = λ m ne. ground arith;
          elsewhere = λ b o. ground arith;
        },
      )
  list_prepend-Added (x ∷ xs) w out =
      let head = w.seg.0 in
      let some_there : ((s.list l).first == null) ≡ false = ground (arith, w.seg.0, w.seg.1) in
      let s1 = set_prev h null (set_object h object s) in
      let s2 = set_next h (s.list l).first s1 in
      let s' = set_first l h (set_prev (s.list l).first h s2) in
      let ne : x ≢ h = ground (arith, out) in
      let tail =
        IsSeg-frame s.hdr s'.hdr x (s.hdr x).next (s.list l).last xs
          (λ b i.
            let not_x : b ≢ x = λ q. cc (w.once.0, i, q) in
            let not_h : b ≢ h = λ q. cc (out_tail x xs h out, i, q) in
            rw head (ground (arith, not_x, not_h)))
          w.seg.3 in
      let other : (h == x) ≡ false = ground (arith, ne) in
      let same : (x == x) ≡ true = ground arith in
      let self : (h == h) ≡ true = ground arith in
      let new_prev : (s'.hdr h).prev ≡ null = rw (head, other, self) refl in
      let new_next : (s'.hdr h).next ≡ x = rw (head, other, self) refl in
      let old_prev : (s'.hdr x).prev ≡ h = rw (head, same) refl in
      let old_next : (s'.hdr x).next ≡ (s.hdr x).next =
        let away : (x == h) ≡ false = ground (arith, ne) in rw (head, same, away) refl in
      (
        s',
        rw (valid, some_there) refl,
        record {
          is_list = record {
            seg = rw me (refl, nh, new_prev, (new_next, w.seg.1, old_prev, rw (old_next) tail));
            once = (out, w.once);
          };
          stands = rw (head, other, self) refl;
          got = rw (get_l, me, get_h) (rw (head, other, self) refl);
          lists = λ m nm. ground arith;
          elsewhere = λ b o.
              let not_h : (b == h) ≡ false = ground (arith, o) in
              let not_x : (b == x) ≡ false = ground (arith, o) in rw (head, not_x, not_h) refl;
        },
      )
