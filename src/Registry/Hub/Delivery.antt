-- ===== src/Registry/Hub/Delivery.antt =====
-- What a sequence of broadcasts leaves in the buffers.
use agent_plane.Base.{
  ℕ, zero, suc, String, ◌≤◌, List, [], ◌∷◌, ◌++◌, ◌==◌, ◌≡◌, refl, sym, ◌∙◌, ap, arith,
  if◌then◌else◌, ltb, length, length-append, Bool-cases, inl, inr,
}
use agent_plane.Registry.Hub.{Frame, Subscriber, Hub, capacity, offer, offer_all, broadcast}

module _ {ℓ} {A : Type ℓ} where
  -- The first elements of a list, at most so many.
  abbrev pub take : ℕ → List A → List A
  take n [] = []
  take zero (x ∷ xs) = []
  take (suc n) (x ∷ xs) = x ∷ take n xs

  take_zero : (xs : List A) → take 0 xs ≡ []
  take_zero [] = refl
  take_zero (x ∷ xs) = refl

  take_all : (n : ℕ) (xs : List A) → length xs ≤ n → take n xs ≡ xs
  take_all n [] h = refl
  take_all zero (x ∷ xs) h = absurd (omega (arith, h))
  take_all (suc n) (x ∷ xs) h = ap (λ ys. x ∷ ys) (take_all n xs (omega (arith, h)))

  -- Cutting after the first part is full ignores the rest.
  take_full : (n : ℕ) (xs ys zs : List A) → n ≤ length xs → take n (xs ++ ys) ≡ take n (xs ++ zs)
  take_full zero [] ys zs h = take_zero ys ∙ sym (take_zero zs)
  take_full (suc n) [] ys zs h = absurd (omega (arith, h))
  take_full zero (x ∷ xs) ys zs h = refl
  take_full (suc n) (x ∷ xs) ys zs h = ap (λ ws. x ∷ ws) (take_full n xs ys zs (omega (arith, h)))

  append_assoc : (xs ys zs : List A) → (xs ++ ys) ++ zs ≡ xs ++ (ys ++ zs)
  append_assoc [] ys zs = refl
  append_assoc (x ∷ xs) ys zs = ap (λ ws. x ∷ ws) (append_assoc xs ys zs)

  append_nil : (xs : List A) → xs ++ [] ≡ xs
  append_nil [] = refl
  append_nil (x ∷ xs) = ap (λ ws. x ∷ ws) (append_nil xs)

module _ {ℓ} {C : Type ℓ} where
  -- The hub after broadcasts of these frames under a key, in order.
  abbrev pub broadcast_each : Hub C → String → List (Frame C) → Hub C
  broadcast_each h key [] = h
  broadcast_each h key (f ∷ fs) = broadcast_each (broadcast h key f.rv f.cfg) key fs

  -- What the broadcasts leave for one subscriber: of its buffer followed by the frames, the eight
  -- oldest, where it is a subscriber of the key.
  abbrev pub filled : String → List (Frame C) → Subscriber C → Subscriber C
  filled key fs s = if s.key == key then record s { buffer = take capacity (s.buffer ++ fs) } else s

  abbrev pub fill_all : String → List (Frame C) → List (Subscriber C) → List (Subscriber C)
  fill_all key fs [] = []
  fill_all key fs (s ∷ ss) = filled key fs s ∷ fill_all key fs ss

  -- Every buffer holds at most what its channel has room for.
  abbrev pub IsWithin : List (Subscriber C) → Type 0
  IsWithin [] = Unit
  IsWithin (s ∷ ss) = (length s.buffer ≤ capacity) × IsWithin ss

  fill_nothing : (key : String) (ss : List (Subscriber C)) → IsWithin ss → fill_all key [] ss ≡ ss
  fill_nothing key [] w = refl
  fill_nothing key (s ∷ ss) (w, ws) =
      let kept : take capacity (s.buffer ++ []) ≡ s.buffer =
        ap (take capacity) (append_nil s.buffer) ∙ take_all capacity s.buffer w in
      elim (Bool-cases (s.key == key)) [
        | inl e ↦ rw (e, kept, fill_nothing key ss ws) refl
        | inr e ↦ rw (e, fill_nothing key ss ws) refl
      ]

  -- One offer, then the rest of the frames.
  filled-offer :
      (key : String) (f : Frame C) (fs : List (Frame C)) (s : Subscriber C)
      → length s.buffer ≤ capacity
      → filled key fs (if s.key == key then offer f s else s) ≡ filled key (f ∷ fs) s
  unfolding offer
  filled-offer key f fs s w = elim (Bool-cases (s.key == key)) [
    | inl e ↦ elim (Bool-cases (ltb (length s.buffer) capacity)) [
      | inl t ↦ rw (e, t, e, append_assoc s.buffer (f ∷ []) fs) refl
      | inr t ↦ rw (e, t, e, take_full capacity s.buffer fs (f ∷ fs) (ground (arith, t))) refl
    ]
    | inr e ↦ rw (e, e) refl
  ]

  fill_all-offer_all :
      (key : String) (f : Frame C) (fs : List (Frame C)) (ss : List (Subscriber C))
      → IsWithin ss
      → fill_all key fs (offer_all key f ss) ≡ fill_all key (f ∷ fs) ss
  unfolding offer_all
  fill_all-offer_all key f fs [] w = refl
  fill_all-offer_all key f fs (s ∷ ss) (w, ws) =
      rw (filled-offer key f fs s w, fill_all-offer_all key f fs ss ws) refl

  offer_all-IsWithin :
      (key : String) (f : Frame C) (ss : List (Subscriber C))
      → IsWithin ss
      → IsWithin (offer_all key f ss)
  unfolding offer_all offer
  offer_all-IsWithin key f [] w = tt
  offer_all-IsWithin key f (s ∷ ss) (w, ws) =
      (ground (arith, w, length-append s.buffer (f ∷ [])), offer_all-IsWithin key f ss ws)

  -- Broadcasts of a list of frames under a key, with no receive between them, leave in the buffer of
  -- each subscriber of the key the eight oldest of what it held and then the frames, where no buffer
  -- holds more than eight before; subscribers of another key keep what they have.
  pub broadcast_each-subs :
      (fs : List (Frame C)) (h : Hub C) (key : String)
      → IsWithin h.subs
      → (broadcast_each h key fs).subs ≡ fill_all key fs h.subs
  unfolding broadcast
  broadcast_each-subs [] h key w = sym (fill_nothing key h.subs w)
  broadcast_each-subs (f ∷ fs) h key w =
      broadcast_each-subs fs (broadcast h key f.rv f.cfg) key (offer_all-IsWithin key f h.subs w)
      ∙ fill_all-offer_all key f fs h.subs w
