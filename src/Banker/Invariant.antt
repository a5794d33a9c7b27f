-- ===== src/Banker/Invariant.antt =====
-- The books of the bank of Project-6/banker.c: no resource is lost or made, nothing is negative, and
-- how allocation, need and maximum relate.
use learning_ei.Base.{ℕ, ◌<◌, ◌≡◌, inl, inr, ◌∙◌, some, subst, true, arith}
use learning_ei.Base.Int.{ℤ, pos, pos_part, ◌+ℤ◌, ◌-ℤ◌, ◌≤ℤ◌, int_laws}
use learning_ei.Base.Arrays.{sum_below, sum_below-change}
use learning_ei.Banker.{
  Bank, Row, number_of_customers, number_of_resources, valid_customer, request_resources,
  release_resources,
}
use learning_ei.Banker.Granted.{granted}
use learning_ei.Banker.Request.{FitsFrom, request_resources-granted, request_resources-cases}
use learning_ei.Banker.Release.{
  released, AllReturnable, release_resources-released, release_resources-cases,
}

-- The amount of resource `r` in the bank and with its customers.
abbrev pub stock : Bank → ℕ → ℤ
stock b r = b.available r +ℤ sum_below number_of_customers (λ c. b.allocation c r)

pub record IsBalanced (total : Row) (b : Bank) : Type 0 where
  pub conserved : (r : ℕ) → r < number_of_resources → stock b r ≡ total r
  pub at_bank : (r : ℕ) → r < number_of_resources → pos 0 ≤ℤ b.available r
  pub held :
      (c r : ℕ) → c < number_of_customers → r < number_of_resources → pos 0 ≤ℤ b.allocation c r
  pub needed : (c r : ℕ) → c < number_of_customers → r < number_of_resources → pos 0 ≤ℤ b.need c r

-- A customer's need is what its maximum leaves above its allocation.
abbrev pub IsMet : Bank → Type 0
IsMet b =
    (c r : ℕ)
    → c < number_of_customers
    → r < number_of_resources
    → b.allocation c r +ℤ b.need c r ≡ b.maximum c r

pub valid→lt : (z : ℤ) → valid_customer z ≡ true → pos_part z < number_of_customers
valid→lt z h = ground arith

take_sum : (a s l x : ℤ) → a -ℤ x +ℤ (s +ℤ (l +ℤ x -ℤ l)) ≡ a +ℤ s
take_sum a s l x = omega int_laws

give_sum : (a s l x : ℤ) → a +ℤ x +ℤ (s +ℤ (l -ℤ x -ℤ l)) ≡ a +ℤ s
give_sum a s l x = omega int_laws

shift_need : (l x n : ℤ) → l +ℤ x +ℤ (n -ℤ x) ≡ l +ℤ n
shift_need l x n = omega int_laws

le_sub : (a x : ℤ) → x ≤ℤ a → pos 0 ≤ℤ a -ℤ x
le_sub a x h = omega int_laws

le_add : (a x : ℤ) → pos 0 ≤ℤ a → pos 0 ≤ℤ x → pos 0 ≤ℤ a +ℤ x
le_add a x h k = omega int_laws

module _ (c : ℕ) (request : Row) (b : Bank) (lt : c < number_of_customers) where
  stock-granted : (r : ℕ) → r < number_of_resources → stock (granted c request 0 4 b) r ≡ stock b r
  unfolding granted
  stock-granted r q =
      let f = λ (d : ℕ). b.allocation d r in
      let g = λ (d : ℕ). (granted c request 0 4 b).allocation d r in
      rw (sum_below-change number_of_customers c f g lt (λ d ne. ground arith)) (
        ground
          (arith, take_sum (b.available r) (sum_below number_of_customers f) (f c) (request r)))

  stock-released : (r : ℕ) → r < number_of_resources → stock (released c request 4 b) r ≡ stock b r
  unfolding released
  stock-released r q =
      let f = λ (d : ℕ). b.allocation d r in
      let g = λ (d : ℕ). (released c request 4 b).allocation d r in
      rw (sum_below-change number_of_customers c f g lt (λ d ne. ground arith)) (
        ground
          (arith, give_sum (b.available r) (sum_below number_of_customers f) (f c) (request r)))

  granted-IsBalanced :
      {total : Row}
      → FitsFrom c request b 0 number_of_resources
      → IsBalanced total b
      → IsBalanced total (granted c request 0 number_of_resources b)
  unfolding granted
  granted-IsBalanced fits v = record {
    conserved = λ r q. stock-granted r q ∙ v.conserved r q;
    at_bank = λ r q. ground (arith, fits r (omega arith) q, le_sub (b.available r) (request r));
    held = λ d r p q.
        ground
          (arith, fits r (omega arith) q, le_add (b.allocation d r) (request r), v.held d r p q);
    needed = λ d r p q.
        ground (arith, fits r (omega arith) q, le_sub (b.need d r) (request r), v.needed d r p q);
  }

  granted-IsMet : IsMet b → IsMet (granted c request 0 number_of_resources b)
  unfolding granted
  granted-IsMet met d r p q =
      ground (arith, met d r p q, shift_need (b.allocation d r) (request r) (b.need d r))

  pub released-IsBalanced :
      {total : Row}
      → AllReturnable c request b number_of_resources
      → IsBalanced total b
      → IsBalanced total (released c request number_of_resources b)
  unfolding released
  released-IsBalanced fits v = record {
    conserved = λ r q. stock-released r q ∙ v.conserved r q;
    at_bank = λ r q. ground (arith, fits r q, le_add (b.available r) (request r), v.at_bank r q);
    held =
        λ d r p q. ground (arith, fits r q, le_sub (b.allocation d r) (request r), v.held d r p q);
    needed = v.needed;
  }

shortfall : (l x n : ℤ) → l -ℤ x +ℤ n +ℤ x ≡ l +ℤ n
shortfall l x n = omega int_laws

released-shortfall :
    (c : ℕ) (release : Row) (b : Bank) (r : ℕ)
    → r < number_of_resources
    → (released c release 4 b).allocation c r +ℤ b.need c r +ℤ release r
      ≡ b.allocation c r +ℤ b.need c r
unfolding released
released-shortfall c release b r q =
    ground (arith, shortfall (b.allocation c r) (release r) (b.need c r))

-- `request_resources` keeps the books balanced, whatever it is asked and whatever it answers.
pub request_resources-IsBalanced :
    {total : Row} {b : Bank} (customer : ℤ) (request : Row)
    → IsBalanced total b
    → IsBalanced total (request_resources customer request b).1
request_resources-IsBalanced {total} {b} customer request v =
    elim (request_resources-cases customer request b) [
      | inl g ↦
          rw (request_resources-granted customer request b g)
            (granted-IsBalanced (pos_part customer) request b (valid→lt customer g.valid) g.fits v)
      | inr same ↦ rw same v
    ]

-- `request_resources` keeps allocation + need = maximum, for every customer and resource.
pub request_resources-IsMet :
    (b : Bank) (customer : ℤ) (request : Row)
    → IsMet b
    → IsMet (request_resources customer request b).1
request_resources-IsMet b customer request met = elim (request_resources-cases customer request b) [
  | inl g ↦
      rw (request_resources-granted customer request b g)
        (granted-IsMet (pos_part customer) request b (valid→lt customer g.valid) met)
  | inr same ↦ rw same met
]

-- `release_resources` keeps the books balanced wherever its behaviour is defined.
pub release_resources-IsBalanced :
    {total : Row} {b b' : Bank} (customer : ℤ) (release : Row) (code : ℤ)
    → IsBalanced total b
    → release_resources customer release b ≡ some (code, b')
    → IsBalanced total b'
release_resources-IsBalanced {total} {b} {b'} customer release code v e =
    elim (release_resources-cases customer release b) [
      | inl (ok, all) ↦
          let e' : released (pos_part customer) release number_of_resources b ≡ b' =
            cc (release_resources-released customer release b ok all) in
          subst (IsBalanced total) e'
            (released-IsBalanced (pos_part customer) release b (valid→lt customer ok) all v)
      | inr (inl same) ↦ let e' : b ≡ b' = cc in subst (IsBalanced total) e' v
      | inr (inr fault) ↦ cc
    ]

-- After a successful release, allocation + need falls short of maximum by exactly the released
-- amount: the needs are not raised again.
pub release_resources-shortfall :
    (b b' : Bank) (customer : ℤ) (release : Row)
    → IsMet b
    → release_resources customer release b ≡ some (pos 0, b')
    → (r : ℕ) → r < number_of_resources
    → b'.allocation (pos_part customer) r +ℤ b'.need (pos_part customer) r +ℤ release r
      ≡ b'.maximum (pos_part customer) r
unfolding released
release_resources-shortfall b b' customer release met e r q =
    elim (release_resources-cases customer release b) [
      | inl (ok, all) ↦
          let c = pos_part customer in
          let e' : released c release number_of_resources b ≡ b' =
            cc (release_resources-released customer release b ok all) in
          rw (← e') (released-shortfall c release b r q ∙ met c r (valid→lt customer ok) q)
      | inr (inl same) ↦ cc
      | inr (inr fault) ↦ cc
    ]
