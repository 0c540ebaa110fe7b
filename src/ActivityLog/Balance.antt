-- ===== src/ActivityLog/Balance.antt =====
-- `reconcile` of token_bench/activity_log.py on extracted turns: the shares add up.
use claude_code_token_saving.Base.{
  ℕ, suc, ◌+◌, ◌*◌, ◌≡◌, refl, ap, true, none, some, List, [], ◌∷◌, map, length, arith,
}
use claude_code_token_saving.Base.Int.{
  ℤ, pos, pos_part, neg_part, sub_ℕ, ◌+ℤ◌, ◌-ℤ◌, ◌*ℤ◌, int_beq, +ℤ_parts, -ℤ_parts, scale_parts,
  eq_of_parts, parts_of_eq,
}
use claude_code_token_saving.ActivityLog.{
  Message, Turn, context, output, growth, result_of, discarded_of, turns_from, extract_turns, later,
  sum, but_last, opening_share, output_share, result_share, discarded_share, observed_of, reconcile,
  taxed, with_context_tax,
}

-- the two derived counts split what the output does not explain
split_growth :
    (g : ℤ) (out : ℕ) → pos out +ℤ result_of (some g) out +ℤ discarded_of (some g) out ≡ g
unfolding discarded_of result_of
split_growth g out = omega (arith, +ℤ_parts, -ℤ_parts, eq_of_parts)

-- one turn more in front
add_turn :
    (c c' out n : ℕ) (r d x y z w : ℤ)
    → pos out +ℤ r +ℤ d ≡ pos c' -ℤ pos c
    → pos c' *ℤ pos n +ℤ x +ℤ y +ℤ z ≡ w
    → pos c *ℤ pos (suc n)
        +ℤ (pos out *ℤ pos (suc n) +ℤ x)
        +ℤ (r *ℤ pos (suc n) +ℤ y)
        +ℤ (d *ℤ pos (suc n) +ℤ z)
      ≡ pos c' +ℤ w
add_turn c c' out n r d x y z w split rest =
    let split_parts = parts_of_eq split in
    let sides : c + out + pos_part r + pos_part d ≡ c' + neg_part r + neg_part d =
      omega (arith, split_parts, +ℤ_parts, -ℤ_parts) in
    let scaled = ap (λ k. k * suc n) sides in
    let rest_parts = parts_of_eq rest in
    omega (arith, +ℤ_parts, -ℤ_parts, eq_of_parts, scale_parts, scaled, rest_parts)

pub later_front : (p n : ℕ) → sub_ℕ (p + suc n) (p + 1) ≡ pos n
later_front p n = ground arith

pub length-turns_from : (p : ℕ) (ms : List Message) → length (turns_from p ms) ≡ length ms
unfolding turns_from
length-turns_from p [] = refl
length-turns_from p (m ∷ ms) = omega (arith, length-turns_from (p + 1) ms)

none_result : (out : ℕ) → result_of none out ≡ pos 0
unfolding result_of
none_result out = refl

none_discarded : (out : ℕ) → discarded_of none out ≡ pos 0
unfolding discarded_of
none_discarded out = refl

only_turn :
    (c : ℕ)
    → pos c *ℤ pos 0 +ℤ pos 0 +ℤ (pos 0 *ℤ pos 0 +ℤ pos 0) +ℤ (pos 0 *ℤ pos 0 +ℤ pos 0) ≡ pos 0
only_turn c = omega (arith, +ℤ_parts, eq_of_parts, scale_parts)

-- The turns from a position on, of a transcript that ends with them.
balance_from :
    (p total : ℕ) (m : Message) (rest : List Message)
    → total ≡ p + suc (length rest)
    → pos (context m) *ℤ pos (length rest)
        +ℤ output_share total (turns_from p (m ∷ rest))
        +ℤ result_share total (turns_from p (m ∷ rest))
        +ℤ discarded_share total (turns_from p (m ∷ rest))
      ≡ observed_of (turns_from p (m ∷ rest))
unfolding turns_from growth
balance_from p total m [] e =
    let weight : sub_ℕ total (p + 1) ≡ pos 0 = rw e (later_front p 0) in
    rw weight (rw (none_result (output m)) (rw (none_discarded (output m)) (only_turn (context m))))
balance_from p total m (m' ∷ rest) e =
    let g = pos (context m') -ℤ pos (context m) in
    let weight : sub_ℕ total (p + 1) ≡ pos (suc (length rest)) =
      rw e (later_front p (suc (length rest))) in
    rw weight (
      add_turn (context m) (context m') (output m) (length rest) (result_of (some g) (output m))
        (discarded_of (some g) (output m)) _ _ _ _ (split_growth g (output m))
        (balance_from (p + 1) total m' rest (omega (arith, e))))

-- The tax changes none of what `reconcile` reads.
module _ (k : ℕ) where
  map-taxed :
      (f : Turn → ℤ)
      → ((t : Turn) → f (taxed k t) ≡ f t)
      → (ts : List Turn) → map f (map (taxed k) ts) ≡ map f ts
  map-taxed f same [] = refl
  map-taxed f same (t ∷ ts) = rw (same t) (ap (λ xs. f t ∷ xs) (map-taxed f same ts))

  but_last-taxed : (ts : List Turn) → but_last (map (taxed k) ts) ≡ map (taxed k) (but_last ts)
  but_last-taxed [] = refl
  but_last-taxed (t ∷ []) = refl
  but_last-taxed (t ∷ u ∷ ts) = ap (λ xs. taxed k t ∷ xs) (but_last-taxed (u ∷ ts))

  output_taxed :
      (total : ℕ) (ts : List Turn) → output_share total (map (taxed k) ts) ≡ output_share total ts
  output_taxed total ts =
      rw (but_last-taxed ts)
        (ap sum (map-taxed (λ t. pos t.output_tokens *ℤ later total t) (λ t. refl) (but_last ts)))

  result_taxed :
      (total : ℕ) (ts : List Turn) → result_share total (map (taxed k) ts) ≡ result_share total ts
  result_taxed total ts = ap sum (map-taxed (λ t. t.result_tokens *ℤ later total t) (λ t. refl) ts)

  discarded_taxed :
      (total : ℕ) (ts : List Turn)
      → discarded_share total (map (taxed k) ts) ≡ discarded_share total ts
  discarded_taxed total ts =
      ap sum (map-taxed (λ t. t.discarded_tokens *ℤ later total t) (λ t. refl) ts)

  observed_taxed : (ts : List Turn) → observed_of (map (taxed k) ts) ≡ observed_of ts
  observed_taxed [] = refl
  observed_taxed (t ∷ ts) = ap sum (map-taxed (λ t. pos t.context_tokens) (λ t. refl) ts)

  pub length-taxed : (ts : List Turn) → length (map (taxed k) ts) ≡ length ts
  length-taxed [] = refl
  length-taxed (t ∷ ts) = ap suc (length-taxed ts)

  opening_taxed : (ts : List Turn) → opening_share (map (taxed k) ts) ≡ opening_share ts
  opening_taxed [] = refl
  opening_taxed (t ∷ ts) = ap (λ n. pos t.context_tokens *ℤ sub_ℕ (suc n) 1) (length-taxed ts)

int_beq_refl : (a : ℤ) → int_beq a a ≡ true
int_beq_refl a = ground arith

less_one : (n : ℕ) → sub_ℕ (suc n) 1 ≡ pos n
less_one n = ground arith

shares_front :
    (total : ℕ) (m : Message) (ms : List Message)
    → total ≡ suc (length ms)
    → pos (context m) *ℤ sub_ℕ total 1
        +ℤ output_share total (turns_from 0 (m ∷ ms))
        +ℤ result_share total (turns_from 0 (m ∷ ms))
        +ℤ discarded_share total (turns_from 0 (m ∷ ms))
      ≡ observed_of (turns_from 0 (m ∷ ms))
shares_front total m ms e =
    let weight : sub_ℕ total 1 ≡ pos (length ms) = rw e (less_one (length ms)) in
    rw weight (balance_from 0 total m ms (omega (arith, e)))

shares_add_up :
    (ms : List Message)
    → let ts = extract_turns ms in
      opening_share ts
        +ℤ output_share (length ts) ts
        +ℤ result_share (length ts) ts
        +ℤ discarded_share (length ts) ts
      ≡ observed_of ts
unfolding extract_turns turns_from
shares_add_up [] = omega (arith, +ℤ_parts, eq_of_parts)
shares_add_up (m ∷ ms) =
    shares_front (length (extract_turns (m ∷ ms))) m ms (length-turns_from 0 (m ∷ ms))

-- Whatever the transcript, the shares of its turns add up to the tokens that were reread, so the
-- breakdown of a run is always balanced.
pub reconcile_balances :
    (ms : List Message)
    → let s = reconcile (with_context_tax (extract_turns ms)) in
      (s.opening +ℤ s.output +ℤ s.tool_result +ℤ s.discarded ≡ s.observed) × (s.balanced ≡ true)
unfolding reconcile with_context_tax
reconcile_balances ms =
    let ts = extract_turns ms in
    let n = length ts in
    rw (length-taxed n ts) (
      rw (opening_taxed n ts) (
        rw (output_taxed n n ts) (
          rw (result_taxed n n ts) (
            rw (discarded_taxed n n ts) (
              rw (observed_taxed n ts)
                (shares_add_up ms, rw (shares_add_up ms) (int_beq_refl (observed_of ts))))))))
