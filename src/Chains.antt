-- ===== src/Chains.antt =====
-- lib/list.c: doubly linked lists. `list_t` and `list_h` are read and written by their addresses,
-- numbers other than 0 (`NULL`), in a store; an operation returns `none` where an `ASSERT` fails or
-- a null pointer is followed.
pub mod Segments
pub mod Append
pub mod Erase
pub mod Remove
use diplomski_rad.Base.{
  ℕ, zero, suc, Bool, not, ◌&&◌, ◌||◌, Option, none, some, ◌==◌, if◌then◌else◌, ◌>>=◌,
}
use diplomski_rad.Base.Int.{ℤ, pos, leb_ℤ}
use diplomski_rad.Threads.{End, at_first, at_last, null, update}

-- `list_h`.
pub record ListH : Type 0 where
  pub prev : ℕ
  pub next : ℕ
  pub object : ℕ

-- `list_t`.
pub record ListT : Type 0 where
  pub first : ℕ
  pub last : ℕ

pub record Store : Type 0 where
  pub hdr : ℕ → ListH
  pub list : ℕ → ListT

abbrev pub set_prev : ℕ → ℕ → Store → Store
set_prev h v s = record s { hdr = update s.hdr h (record (s.hdr h) { prev = v }) }

abbrev pub set_next : ℕ → ℕ → Store → Store
set_next h v s = record s { hdr = update s.hdr h (record (s.hdr h) { next = v }) }

abbrev pub set_object : ℕ → ℕ → Store → Store
set_object h v s = record s { hdr = update s.hdr h (record (s.hdr h) { object = v }) }

abbrev pub set_first : ℕ → ℕ → Store → Store
set_first l v s = record s { list = update s.list l (record (s.list l) { first = v }) }

abbrev pub set_last : ℕ → ℕ → Store → Store
set_last l v s = record s { list = update s.list l (record (s.list l) { last = v }) }

unfoldable pub list_init : ℕ → Store → Option Store
list_init l s = if l == null then none else some (set_first l null (set_last l null s))

unfoldable pub list_append : ℕ → ℕ → ℕ → Store → Option Store
list_append l object h s =
    if (l == null) || (object == null) || (h == null)
    then none
    else (let s1 = set_next h null (set_object h object s) in
        let last = (s1.list l).last in
        if not ((s1.list l).first == null)
        then if last == null
          then none
          else some (set_last l h (set_prev h last (set_next last h s1)))
        else some (set_prev h null (set_first l h (set_last l h s1))))

unfoldable pub list_prepend : ℕ → ℕ → ℕ → Store → Option Store
list_prepend l object h s =
    if (l == null) || (object == null) || (h == null)
    then none
    else (let s1 = set_prev h null (set_object h object s) in
        let s2 = set_next h (s1.list l).first s1 in
        some (
          set_first l h (
            if not ((s2.list l).first == null)
            then set_prev (s2.list l).first h s2
            else set_last l h s2)))

-- The loop of `list_sort_add` from `iter`, for at most `fuel` rounds: `none` where they are not
-- enough.
unfoldable pub sort_position : ℕ → (ℕ → ℕ → ℤ) → ℕ → ℕ → Store → Option ℕ
sort_position zero cmp object iter s = none
sort_position (suc fuel) cmp object iter s =
    let further = sort_position fuel cmp object (s.hdr iter).next s in
    if not (iter == null) && leb_ℤ (pos 0) (cmp object (s.hdr iter).object)
    then further
    else some iter

unfoldable pub list_sort_add : ℕ → ℕ → ℕ → ℕ → (ℕ → ℕ → ℤ) → Store → Option Store
list_sort_add fuel l object h cmp s =
    if (l == null) || (object == null) || (h == null) then none else do
      let s1 = set_object h object s
      let last = (s1.list l).last
      let first = (s1.list l).first
      let at_end = not (last == null) && leb_ℤ (pos 0) (cmp object (s1.hdr last).object)
      iter ← sort_position fuel cmp object (if at_end then null else first) s1
      let s2 = set_next h iter s1
      let before = (s2.hdr iter).prev
      if not (iter == null)
          then (let s3 = set_prev h before s2 in
              some (
                set_prev iter h
                  (if not (before == null) then set_next before h s3 else set_first l h s3)))
          else if not (last == null)
          then some (set_last l h (set_next last h (set_prev h last s2)))
          else some (set_prev h null (set_first l h (set_last l h s2)))

abbrev pub end_of : End → ListT → ℕ
end_of at_first t = t.first
end_of at_last t = t.last

-- The object of the element, or `NULL`.
unfoldable pub list_get : ℕ → End → Store → Option ℕ
list_get l side s =
    if l == null
    then none
    else (let h = end_of side (s.list l) in
        some (if not (h == null) then (s.hdr h).object else null))

unfoldable pub list_get_next : ℕ → Store → ℕ
list_get_next h s =
    if (h == null) || ((s.hdr h).next == null) then null else (s.hdr (s.hdr h).next).object

-- The four conditional writes by which `list_remove` and `list_find_and_remove` unlink an element.
unfoldable pub unlink_next : ℕ → Store → Store
unlink_next h s =
    if not ((s.hdr h).prev == null) then set_next (s.hdr h).prev (s.hdr h).next s else s

unfoldable pub unlink_prev : ℕ → Store → Store
unlink_prev h s =
    if not ((s.hdr h).next == null) then set_prev (s.hdr h).next (s.hdr h).prev s else s

unfoldable pub unlink_first : ℕ → ℕ → Store → Store
unlink_first l h s = if (s.list l).first == h then set_first l (s.hdr h).next s else s

unfoldable pub unlink_last : ℕ → ℕ → Store → Store
unlink_last l h s = if (s.list l).last == h then set_last l (s.hdr h).prev s else s

unfoldable pub unlink : ℕ → ℕ → Store → Store
unlink l h s = unlink_last l h (unlink_first l h (unlink_prev h (unlink_next h s)))

unfoldable pub list_remove : ℕ → End → ℕ → Store → Option (ℕ × Store)
list_remove l side ref s =
    if l == null
    then none
    else (let h = if not (ref == null) then ref else end_of side (s.list l) in
        some (if not (h == null) then ((s.hdr h).object, unlink l h s) else (null, s)))

-- The loop of `list_find_and_remove`, for at most `fuel` rounds.
unfoldable pub find_loop : ℕ → ℕ → ℕ → ℕ → Store → Option (ℕ × Store)
find_loop zero l ref iter s = none
find_loop (suc fuel) l ref iter s =
    let further = find_loop fuel l ref (s.hdr iter).next s in
    if iter == null
    then some (null, s)
    else if iter == ref
    then some ((s.hdr ref).object, unlink l ref s)
    else further

unfoldable pub list_find_and_remove : ℕ → ℕ → ℕ → Store → Option (ℕ × Store)
list_find_and_remove fuel l ref s =
    if (l == null) || (ref == null) then none else find_loop fuel l ref (s.list l).first s
