-- ===== src/Record/Stubs/Ids.antt =====
-- The numbers of the stubs in the cache.
use terminator.Base.{
  ℕ, ℤ, pos, int_eq, ap, ◌∙◌, ◌+◌, ◌<◌, ◌≤◌, Bool-cases, List, [], ◌∷◌, ◌++◌, some, Result, ok,
  ◌>>=◌, length, ◌≡◌, refl, inl, inr, arith,
}
use terminator.Stub.Data.{StubData}
use terminator.Record.Stubs.{StubCache, increment, put_stub_data, delete_from, delete_stub_data}

-- Every stub has a number; the numbers ascend, are above `low` and at most `high`.
abbrev pub IsAscending : ℕ → List StubData → ℕ → Type 0
IsAscending low [] high = low ≤ high
IsAscending low (d ∷ ds) high = (i : ℕ) × (d.id ≡ some (pos i)) × (low < i) × IsAscending i ds high

pub data Change : Type 0 where
  puts : StubData → Change
  deletes : ℤ → Change

unfoldable pub change : Change → StubCache → Result StubCache
unfolding put_stub_data delete_stub_data
change (puts d) s = ok (put_stub_data d s).1
change (deletes id) s = delete_stub_data id s

unfoldable pub change_all : List Change → StubCache → Result StubCache
unfolding change
change_all [] s = ok s
change_all (c ∷ cs) s = change c s >>= λ s'. change_all cs s'

increment_lem : (n : ℕ) → n + 1 < 2147483648 → increment (pos n) ≡ pos (n + 1)
unfolding increment
increment_lem n h = ground arith

IsAscending-put :
    (low high next : ℕ) (ds : List StubData) (d : StubData)
    → IsAscending low ds high
    → high < next
    → d.id ≡ some (pos next)
    → IsAscending low (ds ++ (d ∷ [])) next
IsAscending-put low high next [] d asc lt e = (next, e, omega (arith, asc, lt), omega arith)
IsAscending-put low high next (x ∷ ds) d (i, f, above, rest) lt e =
    (i, f, above, IsAscending-put i high next ds d rest lt e)

IsAscending-lower :
    (low low' high : ℕ) (ds : List StubData)
    → low ≤ low'
    → IsAscending low' ds high
    → IsAscending low ds high
IsAscending-lower low low' high [] h asc = omega (arith, h, asc)
IsAscending-lower low low' high (d ∷ ds) h (i, e, above, rest) =
    (i, e, omega (arith, h, above), rest)

delete_from-IsAscending :
    (id : ℤ) (low high : ℕ) (ds : List StubData)
    → IsAscending low ds high
    → (ds' : List StubData) × (delete_from id ds ≡ ok ds') × IsAscending low ds' high
unfolding delete_from
delete_from-IsAscending id low high [] asc = ([], refl, asc)
delete_from-IsAscending id low high (d ∷ ds) (i, e, above, rest) =
    let (ds', deleted, asc) = delete_from-IsAscending id i high ds rest in
    elim (Bool-cases (int_eq (pos i) id)) [
      | inl found ↦ (
        ds,
        rw (delete_from, e, found) refl,
        IsAscending-lower low i high ds (omega (arith, above)) rest,
      )
      | inr other ↦ (d ∷ ds', simp (delete_from, e, other, deleted) refl, (i, e, above, asc))
    ]

-- Stubs that are put and deleted in any order, from a cache whose numbers ascend up to the counter, as
-- those of an empty cache do: no call throws, each stub has a number of its own, and the numbers ascend
-- in the order in which the stubs were put, up to the counter, when there are so few calls that the
-- counter, a Java int, does not pass 2^31 - 1.
pub change_all-IsAscending :
    (cs : List Change) (s : StubCache) (n : ℕ)
    → s.id ≡ pos n
    → IsAscending 0 s.stub_data n
    → n + length cs < 2147483648
    → (s' : StubCache) × (m : ℕ) × (change_all cs s ≡ ok s')
      × (s'.id ≡ pos m)
      × IsAscending 0 s'.stub_data m
unfolding change_all change put_stub_data delete_stub_data
change_all-IsAscending [] s n at asc room = (s, n, refl, at, asc)
change_all-IsAscending (puts d ∷ cs) s n at asc room =
    let next : increment s.id ≡ pos (n + 1) =
      ap increment at ∙ increment_lem n (omega (arith, room)) in
    let s₁ = (put_stub_data d s).1 in
    change_all-IsAscending cs s₁ (n + 1) next
      (IsAscending-put 0 n (n + 1) s.stub_data (record d { id = some (increment s.id) }) asc
        (omega arith) (ap some next))
      (omega (arith, room))
change_all-IsAscending (deletes id ∷ cs) s n at asc room =
    let (ds, deleted, asc') = delete_from-IsAscending id 0 n s.stub_data asc in
    let (s', m, rest, at', done) =
      change_all-IsAscending cs (record s { stub_data = ds }) n at asc' (omega (arith, room)) in
    (s', m, rw deleted rest, at', done)
