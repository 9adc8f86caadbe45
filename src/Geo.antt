-- ===== src/Geo.antt =====
-- pkg/geo/distance.go.
use rush_delivery_engine.Prelude.{◌≡◌, ap, ◌∙◌, ◌⊎◌, inl, inr}
use rush_delivery_engine.Platform.{Float, FloatOps}

module _ (f : FloatOps) where
  abbrev pub rad : Float → Float
  rad deg = f.div (f.mul deg f.pi) (f.of_int 180)

  abbrev pub half : Float → Float
  half x = f.div x (f.of_int 2)

  -- The `a` of the haversine formula.
  abbrev pub chord : Float → Float → Float → Float → Float
  chord lat1 lng1 lat2 lng2 =
      let d_lat = rad (f.sub lat2 lat1) in
      let d_lng = rad (f.sub lng2 lng1) in
      f.add (f.mul (f.sin (half d_lat)) (f.sin (half d_lat))) (
        f.mul (f.mul (f.mul (f.cos (rad lat1)) (f.cos (rad lat2))) (f.sin (half d_lng)))
          (f.sin (half d_lng)))

  unfoldable pub haversine_km : Float → Float → Float → Float → Float
  haversine_km lat1 lng1 lat2 lng2 =
      let a = chord lat1 lng1 lat2 lng2 in
      let c = f.mul (f.of_int 2) (f.atan2 (f.sqrt a) (f.sqrt (f.sub (f.of_int 1) a))) in
      f.mul (f.of_int 6371) c

-- The signs of double arithmetic: the two differences are opposite, or both are +0; negation passes
-- through products, quotients and the sine.
pub record IsSigned (f : FloatOps) : Type 0 where
  pub sub_swap : (a b : Float) → (f.sub b a ≡ f.neg (f.sub a b)) ⊎ (f.sub b a ≡ f.sub a b)
  pub mul-neg : (a b : Float) → f.mul a (f.neg b) ≡ f.neg (f.mul a b)
  pub neg-mul : (a b : Float) → f.mul (f.neg a) b ≡ f.neg (f.mul a b)
  pub neg-neg : (a : Float) → f.neg (f.neg a) ≡ a
  pub neg-div : (a b : Float) → f.div (f.neg a) b ≡ f.neg (f.div a b)
  pub sin-neg : (a : Float) → f.sin (f.neg a) ≡ f.neg (f.sin a)
  pub mul_comm : (a b : Float) → f.mul a b ≡ f.mul b a

module _ (f : FloatOps) (signed : IsSigned f) where
  sin_half_neg : (x : Float) → f.sin (half f (rad f (f.neg x))) ≡ f.neg (f.sin (half f (rad f x)))
  sin_half_neg x =
      ap (λ y. f.sin (half f (f.div y (f.of_int 180)))) (signed.neg-mul x f.pi)
      ∙ ap (λ y. f.sin (half f y)) (signed.neg-div (f.mul x f.pi) (f.of_int 180))
      ∙ ap f.sin (signed.neg-div (rad f x) (f.of_int 2))
      ∙ signed.sin-neg (half f (rad f x))

  neg_square : (s : Float) → f.mul (f.neg s) (f.neg s) ≡ f.mul s s
  neg_square s =
      signed.neg-mul s (f.neg s) ∙ ap f.neg (signed.mul-neg s s) ∙ signed.neg-neg (f.mul s s)

  neg_twice : (c s : Float) → f.mul (f.mul c (f.neg s)) (f.neg s) ≡ f.mul (f.mul c s) s
  neg_twice c s =
      ap (λ x. f.mul x (f.neg s)) (signed.mul-neg c s)
      ∙ signed.neg-mul (f.mul c s) (f.neg s)
      ∙ ap f.neg (signed.mul-neg (f.mul c s) s)
      ∙ signed.neg-neg (f.mul (f.mul c s) s)

  square_swap :
      (a b : Float)
      → let s = f.sin (half f (rad f (f.sub b a))) in
        let t = f.sin (half f (rad f (f.sub a b))) in f.mul s s ≡ f.mul t t
  square_swap a b = elim (signed.sub_swap a b) [
    | inr same ↦ ap (λ d. f.mul (f.sin (half f (rad f d))) (f.sin (half f (rad f d)))) same
    | inl opposite ↦
        ap (λ d. f.mul (f.sin (half f (rad f d))) (f.sin (half f (rad f d)))) opposite
        ∙ ap (λ s. f.mul s s) (sin_half_neg (f.sub a b))
        ∙ neg_square (f.sin (half f (rad f (f.sub a b))))
  ]

  twice_swap :
      (c a b : Float)
      → let s = f.sin (half f (rad f (f.sub b a))) in
        let t = f.sin (half f (rad f (f.sub a b))) in f.mul (f.mul c s) s ≡ f.mul (f.mul c t) t
  twice_swap c a b = elim (signed.sub_swap a b) [
    | inr same ↦
        ap (λ d. f.mul (f.mul c (f.sin (half f (rad f d)))) (f.sin (half f (rad f d)))) same
    | inl opposite ↦
        ap (λ d. f.mul (f.mul c (f.sin (half f (rad f d)))) (f.sin (half f (rad f d)))) opposite
        ∙ ap (λ s. f.mul (f.mul c s) s) (sin_half_neg (f.sub a b))
        ∙ neg_twice c (f.sin (half f (rad f (f.sub a b))))
  ]

  chord_swap :
      (lat1 lng1 lat2 lng2 : Float) → chord f lat1 lng1 lat2 lng2 ≡ chord f lat2 lng2 lat1 lng1
  chord_swap lat1 lng1 lat2 lng2 =
      let s = f.sin (half f (rad f (f.sub lng1 lng2))) in
      let t = f.sin (half f (rad f (f.sub lat1 lat2))) in
      ap
        (λ x. f.add x (
          f.mul
            (f.mul (f.mul (f.cos (rad f lat1)) (f.cos (rad f lat2)))
              (f.sin (half f (rad f (f.sub lng2 lng1)))))
            (f.sin (half f (rad f (f.sub lng2 lng1))))))
        (square_swap lat1 lat2)
      ∙ ap (f.add (f.mul t t))
          (twice_swap (f.mul (f.cos (rad f lat1)) (f.cos (rad f lat2))) lng1 lng2)
      ∙ ap (λ c. f.add (f.mul t t) (f.mul (f.mul c s) s))
          (signed.mul_comm (f.cos (rad f lat1)) (f.cos (rad f lat2)))

  -- Where float arithmetic has its signs, the distance is the same in both directions, to the last
  -- bit.
  pub haversine-swap :
      (lat1 lng1 lat2 lng2 : Float)
      → haversine_km f lat1 lng1 lat2 lng2 ≡ haversine_km f lat2 lng2 lat1 lng1
  unfolding haversine_km
  haversine-swap lat1 lng1 lat2 lng2 =
      ap
        (λ a.
          f.mul (f.of_int 6371)
            (f.mul (f.of_int 2) (f.atan2 (f.sqrt a) (f.sqrt (f.sub (f.of_int 1) a)))))
        (chord_swap lat1 lng1 lat2 lng2)
