-- ===== src/Args/Directions.antt =====
-- `ArgDirection`, its tests, and `GenerateArgDirection` and `GenerateArgIteratorVariance`. The queries
-- of `MemoryAccessInfo` and the answers of `DispositionTracker` are arguments.
use mathlib.Core.List.{map-append, append_assoc, append-nil}
use mathlib.Core.Path.{ap₂}
use atrox.Prelude.{
  length, length-map, length-append, ℕ, ◌+◌, sym, ap, ◌∙◌, ◌||◌, ◌/◌, ◌%◌, ◌≡◌, refl, Bool, true,
  false, not, ◌&&◌, if◌then◌else◌, List, [], ◌∷◌, ◌++◌, map, ◌==◌, Option, some, none, Result, ok,
  ◌>>=◌, arith,
}

pub data ArgDirection : Type 0 where
  inbound outbound both : ArgDirection

-- The bits of the enumeration: inbound is 1, outbound is 2.
unfoldable pub to_int : ArgDirection → ℕ
to_int ArgDirection.inbound = 1
to_int ArgDirection.outbound = 2
to_int ArgDirection.both = 3

-- The two low bits of a number, for the tests `&`.
unfoldable pub inbound_bit : ℕ → Bool
inbound_bit n = n % 2 == 1

unfoldable pub outbound_bit : ℕ → Bool
outbound_bit n = n / 2 % 2 == 1

unfoldable pub is_inbound : ArgDirection → Bool
unfolding to_int inbound_bit
is_inbound d = inbound_bit (to_int d)

unfoldable pub is_outbound : ArgDirection → Bool
unfolding to_int outbound_bit
is_outbound d = outbound_bit (to_int d)

unfoldable pub is_only_inbound : ArgDirection → Bool
unfolding to_int inbound_bit outbound_bit
is_only_inbound d = inbound_bit (to_int d) && not (outbound_bit (to_int d))

unfoldable pub is_only_outbound : ArgDirection → Bool
unfolding to_int inbound_bit outbound_bit
is_only_outbound d = outbound_bit (to_int d) && not (inbound_bit (to_int d))

-- The queries of a `MemoryAccessInfo`.
pub record Queries : Type 0 where
  pub read : ℕ → Result Bool
  pub write : ℕ → Result Bool

-- The direction of a pointer that is an input.
unfoldable pub pointer_direction : Queries → ℕ → Result ArgDirection
pointer_direction mai v = mai.write v >>= λ w.
    if w
    then (mai.read v >>= λ r. ok (if r then ArgDirection.both else ArgDirection.outbound))
    else ok ArgDirection.inbound

unfoldable pub input_direction : (ℕ → Bool) → Option Queries → ℕ → Result ArgDirection
unfolding pointer_direction
input_direction is_pointer none v =
    ok (if is_pointer v then ArgDirection.both else ArgDirection.inbound)
input_direction is_pointer (some mai) v =
    if is_pointer v then pointer_direction mai v else ok ArgDirection.inbound

unfoldable pub output_direction : Option Queries → ℕ → Result ArgDirection
output_direction none v = ok ArgDirection.both
output_direction (some mai) v =
    mai.read v >>= λ r. ok (if r then ArgDirection.both else ArgDirection.outbound)

-- A loop that pushes the direction of each value.
unfoldable pub push_directions :
    (ℕ → Result ArgDirection) → List ArgDirection → List ℕ → Result (List ArgDirection)
push_directions direction dirs [] = ok dirs
push_directions direction dirs (v ∷ vs) =
    direction v >>= λ d. push_directions direction (dirs ++ d ∷ []) vs

unfoldable pub generate_arg_direction :
    (ℕ → Bool) → List ℕ → List ℕ → List ArgDirection → Option Queries → Result (List ArgDirection)
unfolding push_directions input_direction output_direction
generate_arg_direction is_pointer inputs outputs dirs mai =
    push_directions (input_direction is_pointer mai) dirs inputs >>= λ dirs'.
    push_directions (output_direction mai) dirs' outputs

-- A loop that pushes whether each value's disposition is 2, with the switch's default.
unfoldable pub push_variances : (ℕ → ℕ) → List Bool → List ℕ → List Bool
push_variances disposition vars [] = vars
push_variances disposition vars (v ∷ vs) =
    push_variances disposition (vars ++ (disposition v == 2) ∷ []) vs

unfoldable pub generate_arg_iterator_variance : (ℕ → ℕ) → List ℕ → List ℕ → List Bool → List Bool
unfolding push_variances
generate_arg_iterator_variance disposition inputs outputs vars =
    push_variances disposition (push_variances disposition vars inputs) outputs

-- `IsBidirectional`, over the pairs of the map.
unfoldable pub is_bidirectional : ℕ → List (ℕ × ℕ) → Bool
is_bidirectional v [] = false
is_bidirectional v ((o, i) ∷ es) =
    if o == v then true else if i == v then true else is_bidirectional v es

module _ (direction : ℕ → Result ArgDirection) (d : ℕ → ArgDirection)
    (answers : (v : ℕ) → direction v ≡ ok (d v)) where
  push_directions_lem :
      (dirs : List ArgDirection) (vs : List ℕ)
      → push_directions direction dirs vs ≡ ok (dirs ++ map d vs)
  unfolding push_directions
  push_directions_lem dirs [] = ap ok (sym (append-nil dirs))
  push_directions_lem dirs (v ∷ vs) =
      rw (push_directions, answers v)
        (push_directions_lem (dirs ++ d v ∷ []) vs
          ∙ ap ok (append_assoc dirs (d v ∷ []) (map d vs)))

-- The direction with given bits, where one is set.
abbrev with_bits : Bool → Bool → ArgDirection
with_bits true true = ArgDirection.both
with_bits true false = ArgDirection.inbound
with_bits false o = ArgDirection.outbound

inbound-with_bits : (i o : Bool) → is_inbound (with_bits i o) ≡ i
unfolding is_inbound inbound_bit to_int
inbound-with_bits true true = refl
inbound-with_bits true false = refl
inbound-with_bits false o = refl

outbound-with_bits : (i o : Bool) → (i || o) ≡ true → is_outbound (with_bits i o) ≡ o
unfolding is_outbound outbound_bit to_int
outbound-with_bits true true h = refl
outbound-with_bits true false h = refl
outbound-with_bits false true h = refl
outbound-with_bits false false h = cc

module _ {ℓ κ μ} {A : Type ℓ} {B : Type κ} {C : Type μ} where
  map-map :
      (f : B → C) (g : A → B) (h : A → C)
      → ((x : A) → f (g x) ≡ h x)
      → (xs : List A) → map f (map g xs) ≡ map h xs
  map-map f g h e [] = refl
  map-map f g h e (x ∷ xs) = rw (e x, map-map f g h e xs) refl

  map_two :
      (f : B → C) (g k : A → B) (h j : A → C)
      → ((x : A) → f (g x) ≡ h x)
      → ((x : A) → f (k x) ≡ j x)
      → (xs ys : List A) → map f (map g xs ++ map k ys) ≡ (map h xs ++ map j ys)
  map_two f g k h j e e' [] ys = map-map f k j e' ys
  map_two f g k h j e e' (x ∷ xs) ys = rw (e x, map_two f g k h j e e' xs ys) refl

-- Where the two queries return for every value, so does the generation, with a direction for each input and
-- then each output, in order. An input is outbound if it is a pointer that is written, and inbound unless it is a
-- pointer that is written and not read; an output is outbound, and inbound if it is read.
pub generate_arg_direction_lem :
    (is_pointer r w : ℕ → Bool) (inputs outputs : List ℕ) (mai : Queries)
    → ((v : ℕ) → mai.read v ≡ ok (r v))
    → ((v : ℕ) → mai.write v ≡ ok (w v))
    → (dirs : List ArgDirection) × (generate_arg_direction is_pointer inputs outputs [] (some mai)
        ≡ ok dirs)
      × (map is_outbound dirs ≡ (map (λ v. is_pointer v && w v) inputs ++ map (λ v. true) outputs))
      × (map is_inbound dirs
          ≡ (map (λ v. not (is_pointer v && (w v && not (r v)))) inputs ++ map r outputs))
unfolding generate_arg_direction input_direction output_direction pointer_direction
generate_arg_direction_lem is_pointer r w inputs outputs mai reads writes =
    let input : (ℕ → ArgDirection) =
      λ v. with_bits (not (is_pointer v && (w v && not (r v)))) (is_pointer v && w v) in
    let output : (ℕ → ArgDirection) = λ v. with_bits (r v) true in
    let a =
      push_directions_lem (input_direction is_pointer (some mai)) input
        (λ v. ground (arith, reads v, writes v)) [] inputs in
    let b =
      push_directions_lem (output_direction (some mai)) output (λ v. ground (arith, reads v))
        (map input inputs) outputs in
    (
      map input inputs ++ map output outputs,
      rw (generate_arg_direction, a) b,
      map_two is_outbound input output _ _ (λ v. outbound-with_bits _ _ (ground arith))
          (λ v. outbound-with_bits (r v) true (ground arith)) inputs outputs,
      map_two is_inbound input output _ _ (λ v. inbound-with_bits _ _)
          (λ v. inbound-with_bits (r v) true) inputs outputs,
    )

push_variances_lem :
    (disposition : ℕ → ℕ) (vars : List Bool) (vs : List ℕ)
    → push_variances disposition vars vs ≡ (vars ++ map (λ v. disposition v == 2) vs)
unfolding push_variances
push_variances_lem disposition vars [] = sym (append-nil vars)
push_variances_lem disposition vars (v ∷ vs) =
    push_variances_lem disposition (vars ++ (disposition v == 2) ∷ []) vs
    ∙ append_assoc vars ((disposition v == 2) ∷ []) (map (λ x. disposition x == 2) vs)

-- The variance of each input and then each output, in order, is whether its disposition is 2.
pub generate_arg_iterator_variance_lem :
    (disposition : ℕ → ℕ) (inputs outputs : List ℕ)
    → generate_arg_iterator_variance disposition inputs outputs []
      ≡ map (λ v. disposition v == 2) (inputs ++ outputs)
unfolding generate_arg_iterator_variance
generate_arg_iterator_variance_lem disposition inputs outputs =
    push_variances_lem disposition (push_variances disposition [] inputs) outputs
    ∙ ap (λ q. q ++ map (λ v. disposition v == 2) outputs)
        (push_variances_lem disposition [] inputs)
    ∙ sym (map-append (λ v. disposition v == 2) inputs outputs)

-- There is a direction for each input and each output, where the queries return for every value.
pub generate_arg_direction-length :
    (is_pointer : ℕ → Bool) (inputs outputs : List ℕ) (mai : Queries)
    → ((v : ℕ) → (b : Bool) × (mai.read v ≡ ok b))
    → ((v : ℕ) → (b : Bool) × (mai.write v ≡ ok b))
    → (dirs : List ArgDirection) × (generate_arg_direction is_pointer inputs outputs [] (some mai)
        ≡ ok dirs)
      × (length dirs ≡ length inputs + length outputs)
generate_arg_direction-length is_pointer inputs outputs mai reads writes =
    let (dirs, e, out, _) =
      generate_arg_direction_lem is_pointer (λ v. (reads v).0) (λ v. (writes v).0) inputs outputs
        mai (λ v. (reads v).1) (λ v. (writes v).1) in
    (
      dirs,
      e,
      sym (length-map is_outbound dirs)
          ∙ ap length out
          ∙ length-append (map (λ v. is_pointer v && (writes v).0) inputs) (map (λ v. true) outputs)
          ∙ ap₂ (λ a b. a + b) (length-map (λ v. is_pointer v && (writes v).0) inputs)
              (length-map (λ v. true) outputs),
    )
