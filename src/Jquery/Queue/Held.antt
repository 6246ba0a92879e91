-- ===== src/Jquery/Queue/Held.antt =====
-- What the arrays of a queue hold while functions are taken from them and put into them.
use terminator.Base.{
  ℕ, zero, suc, false, List, [], ◌∷◌, ◌++◌, none, some, length, get_elem?, ◌≡◌, refl, ap, ◌∙◌,
  arith,
}
use terminator.Jquery.Queue.{
  Entry, inprogress, function, Queues, put_at, items, write, new_array, handle_queue_mark_defer,
  from_queue, look_up, shift, past_sentinel, clear_if_empty,
}

module _ {B : Type 0} where
  get_elem?-put_at :
      (xs : List B) (i : ℕ) (l k : B)
      → get_elem? xs i ≡ some l
      → get_elem? (put_at xs i k) i ≡ some k
  unfolding put_at
  get_elem?-put_at [] i l k h = cc
  get_elem?-put_at (x ∷ xs) zero l k h = refl
  get_elem?-put_at (x ∷ xs) (suc i) l k h = get_elem?-put_at xs i l k h

  get_elem?_new : (xs : List B) (l : B) → get_elem? (xs ++ (l ∷ [])) (length xs) ≡ some l
  get_elem?_new [] l = refl
  get_elem?_new (x ∷ xs) l = get_elem?_new xs l

module _ {F D : Type 0} where
  -- The number `q` is that of an array with the items `l`.
  abbrev pub Holds : ℕ → List (Entry F) → Queues F D → Type 0
  Holds q l s = get_elem? s.arrays q ≡ some l

  pub items_held : (q : ℕ) (l : List (Entry F)) (s : Queues F D) → Holds q l s → items s q ≡ l
  unfolding items
  items_held q l s h = rw (items, h) refl

  pub write_held :
      (q : ℕ) (l k : List (Entry F)) (s : Queues F D) → Holds q l s → Holds q k (write q k s)
  unfolding write
  write_held q l k s h = get_elem?-put_at s.arrays q l k h

  pub new_array_held :
      (l : List (Entry F)) (s : Queues F D) → Holds (new_array l s).1 l (new_array l s).0
  unfolding new_array
  new_array_held l s = get_elem?_new s.arrays l

  pub shift_cons :
      (q : ℕ) (x : Entry F) (l : List (Entry F)) (s : Queues F D)
      → Holds q (x ∷ l) s
      → shift q s ≡ (some x, write q l s)
  unfolding shift
  shift_cons q x l s h = rw (shift, items_held q (x ∷ l) s h) refl

  pub shift_nil : (q : ℕ) (s : Queues F D) → Holds q [] s → shift q s ≡ (none, s)
  unfolding shift
  shift_nil q s h = rw (shift, items_held q [] s h) refl

  pub clear_if_empty_lem :
      (q : ℕ) (x : Entry F) (l : List (Entry F)) (s : Queues F D)
      → Holds q (x ∷ l) s
      → clear_if_empty q s ≡ s
  unfolding clear_if_empty
  clear_if_empty_lem q x l s h = rw (clear_if_empty, items_held q (x ∷ l) s h) refl

  pub clear_if_empty_nil :
      (q : ℕ) (s : Queues F D)
      → Holds q [] s
      → clear_if_empty q s
        ≡ handle_queue_mark_defer from_queue (record s { queue = none; run = false })
  unfolding clear_if_empty
  clear_if_empty_nil q s h = simp (clear_if_empty, items_held q [] s h) refl

  pub defer-queue : (s : Queues F D) → (handle_queue_mark_defer from_queue s).queue ≡ s.queue
  unfolding handle_queue_mark_defer
  defer-queue s = ground arith

  pub look_up-some : (q : ℕ) (s : Queues F D) → s.queue ≡ some q → look_up s ≡ (s, q)
  unfolding look_up
  look_up-some q s h = simp (look_up, h) refl

  pub look_up-none : (s : Queues F D) → s.queue ≡ none → look_up s ≡ new_array [] s
  unfolding look_up
  look_up-none s h = simp (look_up, h) refl

  -- What is taken from an array that begins with a sentinel.
  pub taken_cons :
      (q : ℕ) (f : F) (l : List (Entry F)) (s : Queues F D)
      → Holds q (inprogress ∷ function f ∷ l) s
      → (s' : Queues F D) × (past_sentinel q (shift q s) ≡ (some (function f), s'))
        × (s'.queue ≡ s.queue)
        × Holds q l s'
  unfolding past_sentinel write
  taken_cons q f l s h =
      let s₁ = write q (function f ∷ l) s in
      let h₁ = write_held q (inprogress ∷ function f ∷ l) (function f ∷ l) s h in
      (
        write q l s₁,
        ap (past_sentinel q) (shift_cons q inprogress (function f ∷ l) s h)
            ∙ shift_cons q (function f) l s₁ h₁,
        refl,
        write_held q (function f ∷ l) l s₁ h₁,
      )

  pub taken_last :
      (q : ℕ) (s : Queues F D)
      → Holds q (inprogress ∷ []) s
      → (past_sentinel q (shift q s) ≡ (none, write q [] s)) × Holds q [] (write q [] s)
  unfolding past_sentinel
  taken_last q s h =
      let h₁ = write_held q (inprogress ∷ []) [] s h in
      (ap (past_sentinel q) (shift_cons q inprogress [] s h) ∙ shift_nil q (write q [] s) h₁, h₁)
