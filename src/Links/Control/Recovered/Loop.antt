-- ===== src/Links/Control/Recovered/Loop.antt =====
-- The loop of `recoveryLink` over the links of the table.
use terminator.Links.Table.{Platform, Link, Table, ServerStatus, running, stopped}
use terminator.Links.Maps.{get}
use terminator.Links.Control.{Control, Server, start_server, recover, recover_one, and_then}
use terminator.Base.{
  ℕ, List, [], ◌∷◌, Option, none, some, Result, ok, err, null_pointer, ◌≡◌, refl, sym, ◌∙◌, ap, All,
}
use mathlib.Core.Option.{some-injective, none-ne-some}
use mathlib.Core.Path.{subst}
use terminator.Links.Control.Recovered.{shown_status, IsRecovering, Extends, start_server-Recovers}

module _ (p : Platform) where
  -- A sequence that returns has a first statement that returns.
  and_then-ok :
      (o : Control p × Result Unit) (next : Control p → Control p × Result Unit) (s' : Control p)
      → and_then o next ≡ (s', ok tt)
      → (mid : Control p) × (o ≡ (mid, ok tt)) × (next mid ≡ (s', ok tt))
  and_then-ok (s, err x) next s' h = cc
  and_then-ok (s, ok _) next s' h = (s, refl, h)

  -- The links of a list that the table `t` shows as running.
  abbrev pub AllShown : Table → List (Link p) → Type 0
  AllShown t = All (λ l.
      (id : ℕ) → l.id ≡ some id → l.status ≡ some running → shown_status id t.rows ≡ some running)

  abbrev pub AllServed : Control p → List (Link p) → Type 0
  AllServed s = All (λ l.
      (id : ℕ)
      → l.id ≡ some id
      → l.status ≡ some running
      → (server : Server) × (get id s.link_id_server_map ≡ some server))

  recover_one-Recovers :
      (l : Link p) (t : Table) (s s' : Control p)
      → AllShown t (l ∷ [])
      → IsRecovering p t s
      → recover_one p l s ≡ (s', ok tt)
      → IsRecovering p t s' × Extends p s s' × AllServed s' (l ∷ [])
  unfolding recover_one
  recover_one-Recovers l t s s' (shown, _) h e = go l.status refl
    where
      stays :
          ¬ (l.status ≡ some running)
          → recover_one p l s ≡ (s, ok tt)
          → IsRecovering p t s' × Extends p s s' × AllServed s' (l ∷ [])
      stays no_start f =
          subst (λ u. IsRecovering p t u × Extends p s u × AllServed u (l ∷ []))
            (ap (λ o. o.0) (sym f ∙ e))
            (h, (λ j sv k. (sv, k)), ((λ id g k. absurd (no_start k)), tt))

      starts :
          (o : Option ℕ)
          → l.id ≡ o
          → l.status ≡ some running
          → IsRecovering p t s' × Extends p s s' × AllServed s' (l ∷ [])
      starts none f g =
          let throws : recover_one p l s ≡ (s, err null_pointer) = rw (recover_one, g, f) refl in
          cc (throws, e)
      starts (some id) f g =
          let started_one : recover_one p l s ≡ start_server p id s = rw (recover_one, g, f) refl in
          let (h', kept, up) =
            start_server-Recovers p id t s s' (shown id f g) h (sym started_one ∙ e) in
          (
            h',
            kept,
            (
              (λ j q w.
                  subst (λ i. (sv : Server) × (get i s'.link_id_server_map ≡ some sv))
                    (some-injective _ _ (sym f ∙ q)) up),
              tt,
            ),
          )

      go :
          (o : Option ServerStatus)
          → l.status ≡ o
          → IsRecovering p t s' × Extends p s s' × AllServed s' (l ∷ [])
      go none f = stays (λ k. none-ne-some running (sym f ∙ k)) (rw (recover_one, f) refl)
      go (some stopped) f = stays (λ k. cc (f, k)) (rw (recover_one, f) refl)
      go (some running) f = starts l.id refl f

  pub recover-Recovers :
      (ls : List (Link p)) (t : Table) (s s' : Control p)
      → AllShown t ls
      → IsRecovering p t s
      → recover p ls s ≡ (s', ok tt)
      → IsRecovering p t s' × Extends p s s' × AllServed s' ls
  unfolding recover
  recover-Recovers [] t s s' shown h e = (
    subst (IsRecovering p t) (ap (λ o. o.0) e) h,
    (λ j sv k. (sv, ap (λ o. get j o.0.link_id_server_map) (sym e) ∙ k)),
    tt,
  )
  recover-Recovers (l ∷ ls) t s s' (one, shown) h e =
      let (mid, first, rest) = and_then-ok (recover_one p l s) (λ u. recover p ls u) s' e in
      let (h', kept, (up, _)) = recover_one-Recovers l t s mid (one, tt) h first in
      let (h'', kept', served) = recover-Recovers ls t mid s' shown h' rest in
      (
        h'',
        (λ j sv q. let (sv', q') = kept j sv q in kept' j sv' q'),
        ((λ j q w. let (sv, u) = up j q w in kept' j sv u), served),
      )
