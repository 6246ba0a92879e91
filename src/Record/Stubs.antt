-- ===== src/Record/Stubs.antt =====
-- The stub half of storage/cache/CacheStorage.java, and `signerChanged`. Each call of `putStubData` is
-- given an object of its own.
pub mod Ids
use terminator.Base.{
  zero, suc, ◌+◌, ℤ, pos, negsuc, int_eq, List, [], ◌∷◌, ◌++◌, Option, none, some, Text, Result, ok,
  err, null_pointer, ◌>>=◌, ◌==◌, if◌then◌else◌,
}
use terminator.Stub.Data.{StubData}

-- `id` and `stubDataCache`. The counter is an int of 32 bits with a sign.
pub record StubCache : Type 0 where
  pub id : ℤ
  pub stub_data : List StubData

-- `id.incrementAndGet()`
unfoldable pub increment : ℤ → ℤ
increment (pos n) = if n == 2147483647 then negsuc 2147483647 else pos (n + 1)
increment (negsuc zero) = pos 0
increment (negsuc (suc n)) = negsuc n

-- `putStubData`: the number that it returns, and the cache afterwards.
unfoldable pub put_stub_data : StubData → StubCache → ℤ × StubCache
unfolding increment
put_stub_data d s =
    let id = increment s.id in
    (id, record { id = id; stub_data = s.stub_data ++ (record d { id = some id } ∷ []) })

-- The loop of `deleteStubData`; a stub whose number is null throws.
unfoldable pub delete_from : ℤ → List StubData → Result (List StubData)
delete_from id [] = ok []
delete_from id (d ∷ ds) =
    let rest : Result (List StubData) = (delete_from id ds >>= λ l. ok (d ∷ l)) in
    elim d.id [ none ↦ err null_pointer | some i ↦ if int_eq i id then ok ds else rest ]

unfoldable pub delete_stub_data : ℤ → StubCache → Result StubCache
unfolding delete_from
delete_stub_data id s = delete_from id s.stub_data >>= λ ds. ok (record s { stub_data = ds })

-- `signerChanged`: each bundle of the cache as it is now is put once more under its new key. `put` is
-- that of the cache library and `sign_bundle` the signature of the bundle's request.
unfoldable pub signer_changed :
    {B State : Type 0} → (Text → B → State → State) → (B → Text) → List (Text × B) → State → State
signer_changed put sign_bundle [] s = s
signer_changed put sign_bundle ((key, bundle) ∷ entries) s =
    signer_changed put sign_bundle entries (put (sign_bundle bundle) bundle s)
