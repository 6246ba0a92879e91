-- ===== src/Links/Requests/Ports.antt =====
-- `distributeLocalPort`: the ports it tries, in ascending order.
use terminator.Links.Table.{Platform, count_valid_port}
use terminator.Links.Control.{Control, bound_ports}
use terminator.Links.Requests.{is_port_available, distribute_from, distribute_local_port}
use terminator.Base.{
  ℕ, zero, suc, ◌+◌, ◌<◌, ◌≤◌, ℤ, pos, negsuc, true, false, ok, ◌≡◌, ◌⊎◌, inl, inr, refl, arith,
}
use native.Mathlib.Decide.{ℕ_discrete}
use mathlib.Core.Path.{subst}

-- What holds at `i` and above it holds from `i` on.
from_here :
    (P : ℕ → Type 0) (i bound : ℕ)
    → P i
    → ((j : ℕ) → i + 1 ≤ j → j < bound → P j)
    → (j : ℕ) → i ≤ j
    → j < bound
    → P j
from_here P i bound here above j le lt = elim (ℕ_discrete i j) [
  | yes e ↦ subst P e here
  | no ne ↦ above j (omega (arith, le, ne)) lt
]

module _ (p : Platform) where
  -- No link that is not deleted has the port, and the machine lets the process bind it.
  abbrev pub IsFree : Control p → ℕ → Type 0
  IsFree s port =
      (count_valid_port (pos port) s.link_table.rows ≡ 0)
      × (p.bindable (bound_ports p s) port ≡ true)

  -- The answer of `isPortAvailable` on what is a port.
  is_port_available-cases :
      (n : ℕ) (s : Control p)
      → n < 65536
      → ((is_port_available p (pos n) s ≡ ok true) × IsFree s n)
        ⊎ ((is_port_available p (pos n) s ≡ ok false) × (¬ IsFree s n))
  unfolding is_port_available
  is_port_available-cases n s lt = ground arith

  -- The first free port from `i` on, among `left` of them, or -1.
  abbrev pub IsFirstFree : ℕ → ℕ → Control p → ℤ → Type 0
  IsFirstFree left i s (pos port) =
      (i ≤ port) × (port < i + left) × IsFree s port × ((j : ℕ) → i ≤ j → j < port → ¬ IsFree s j)
  IsFirstFree left i s (negsuc n) = (n ≡ 0) × ((j : ℕ) → i ≤ j → j < i + left → ¬ IsFree s j)

  IsFirstFree-later :
      (left i : ℕ) (s : Control p) (port : ℤ)
      → ¬ IsFree s i
      → IsFirstFree left (i + 1) s port
      → IsFirstFree (suc left) i s port
  IsFirstFree-later left i s (pos port) e (a, b, c, d) =
      (omega (arith, a), omega (arith, b), c, from_here (λ j. ¬ IsFree s j) i port e d)
  IsFirstFree-later left i s (negsuc n) e (a, d) =
      (a, from_here (λ j. ¬ IsFree s j) i (i + suc left) e (λ j x y. d j x (omega (arith, y))))

  distribute_from_lem :
      (left i : ℕ) (s : Control p)
      → i + left ≤ 65536
      → (port : ℤ) × (distribute_from p left i s ≡ ok port) × IsFirstFree left i s port
  unfolding distribute_from
  distribute_from_lem zero i s le = (negsuc 0, refl, (refl, λ j a b. absurd (omega (arith, a, b))))
  distribute_from_lem (suc left) i s le = elim (is_port_available-cases i s (omega (arith, le))) [
    | inl (e, free) ↦
        (pos i, rw e refl, (omega arith, omega arith, free, λ j a b. absurd (omega (arith, a, b))))
    | inr (e, taken) ↦
        let (port, f, first) = distribute_from_lem left (i + 1) s (omega (arith, le)) in
        (port, rw (e, f) refl, IsFirstFree-later left i s port taken first)
  ]

  -- The port is found without an exception. It is the first of 8001 to 49999 that no row which is not
  -- deleted has and that can be bound, or -1 when there is none.
  pub distribute_local_port-IsFirstFree :
      (s : Control p)
      → (port : ℤ) × (distribute_local_port p s ≡ ok port) × IsFirstFree 41999 8001 s port
  unfolding distribute_local_port
  distribute_local_port-IsFirstFree s = distribute_from_lem 41999 8001 s (omega arith)
