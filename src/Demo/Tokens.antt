-- ===== src/Demo/Tokens.antt =====
-- Token programs for the examples: a balance for each account, at offset 64 of its data.
use native.Mathlib.Decide.{ℕ_discrete}
use solana_orderbook.Base.{
  ℕ, zero, suc, ◌+◌, ◌-◌, ◌≤◌, ◌≡◌, ◌≢◌, refl, ap, sym, ◌∙◌, Bool, false, not, ◌&&◌, ◌||◌, List, [],
  ◌∷◌, ◌++◌, ◌==◌, ltb, min, if◌then◌else◌, arith, u64_max, update, update_self, update_ne,
}
use solana_orderbook.Base.Bytes.{drop, from_le, to_le}
use solana_orderbook.Exec.{Result, ok, err}
use solana_orderbook.Exec.Errors.{clob, insufficient_balance}
use solana_orderbook.Runtime.{CheckedTransfer, TokenProgram, Custody, held}

abbrev pub zeros : ℕ → List ℕ
zeros zero = []
zeros (suc n) = 0 ∷ zeros n

abbrev pub Balances : Type 0
Balances = ℕ → ℕ

-- No account holds more than a u64.
abbrev pub capped : ℕ → ℕ
capped n = min n u64_max

abbrev pub moved : CheckedTransfer → Balances → Balances
moved t s =
    update (update s t.from (s t.from - t.amount)) t.to
      (update s t.from (s t.from - t.amount) t.to + t.amount)

-- The vaults 13 and 14 move with a signature only.
abbrev pub barred : CheckedTransfer → Bool
barred t = not t.signed && ((t.from == 13) || (t.from == 14))

-- Every mint has 6 decimals, and a destination holds no more than a u64.
abbrev pub refused : CheckedTransfer → Balances → Bool
refused t s = not (t.decimals == 6) || ltb u64_max (s t.to + t.amount)

abbrev pub move : CheckedTransfer → Balances → Result Balances
move t s =
    if (ltb (s t.from) t.amount || barred t) || refused t s
    then err (clob insufficient_balance)
    else ok (moved t s)

abbrev pub token_demo : TokenProgram
token_demo = record {
  State = Balances;
  data_of = λ key s. zeros 64 ++ (to_le 8 (capped (s key)) ++ zeros 93);
  invoke = move;
}

prefix : (n : ℕ) (xs : List ℕ) → drop n (zeros n ++ xs) ≡ xs
prefix zero xs = refl
prefix (suc n) xs = prefix n xs

read : (v : ℕ) (xs : List ℕ) → v ≤ u64_max → from_le 8 (to_le 8 v ++ xs) ≡ v
unfolding from_le to_le
read v xs h = omega arith

pub held-balance : (key : ℕ) (s : Balances) → held token_demo key s ≡ capped (s key)
held-balance key s =
    ap (from_le 8) (prefix 64 (to_le 8 (capped (s key)) ++ zeros 93))
    ∙ read (capped (s key)) (zeros 93) (omega arith)

-- A transfer that has been made.
record Made (t : CheckedTransfer) (s s' : Balances) : Type 0 where
  after : moved t s ≡ s'
  enough : t.amount ≤ s t.from
  open_vault : barred t ≡ false

made : (t : CheckedTransfer) (s s' : Balances) → move t s ≡ ok s' → Made t s s'
made t s s' e = record {
  after = ground (arith, e);
  enough = ground (arith, e);
  open_vault = ground (arith, e);
}

at_to :
    (t : CheckedTransfer) (s : Balances)
    → moved t s t.to ≡ update s t.from (s t.from - t.amount) t.to + t.amount
at_to t s = update_self _ t.to _

elsewhere :
    (t : CheckedTransfer) (s : Balances) (key : ℕ)
    → key ≢ t.to
    → moved t s key ≡ update s t.from (s t.from - t.amount) key
elsewhere t s key h = update_ne _ t.to key _ h

at_from :
    (t : CheckedTransfer) (s : Balances)
    → update s t.from (s t.from - t.amount) t.from ≡ s t.from - t.amount
at_from t s = update_self s t.from _

kept :
    (t : CheckedTransfer) (s : Balances) (key : ℕ)
    → key ≢ t.from
    → update s t.from (s t.from - t.amount) key ≡ s key
kept t s key h = update_ne s t.from key _ h

debited :
    (t : CheckedTransfer) (s : Balances)
    → t.amount ≤ s t.from
    → s t.from ≤ moved t s t.from + t.amount
debited t s enough = elim (ℕ_discrete t.from t.to) [
  | yes e ↦ rw (ap (moved t s) e, at_to t s, sym e, at_from t s) (omega arith)
  | no h ↦ rw (elsewhere t s t.from h, at_from t s) (omega arith)
]

grown : (t : CheckedTransfer) (s : Balances) (key : ℕ) → key ≢ t.from → s key ≤ moved t s key
grown t s key h = elim (ℕ_discrete key t.to) [
  | yes e ↦ rw (ap (moved t s) e, at_to t s, sym e, kept t s key h) (omega arith)
  | no g ↦ rw (elsewhere t s key g, kept t s key h) (omega arith)
]

pub token_demo-Custody : Custody token_demo 13 14
token_demo-Custody = record {
  apart = λ e. omega arith;
  eight_bytes = λ key s. omega (arith, held-balance key s);
  debit = λ t s s' e.
      let m = made t s s' e in
      omega (
        arith,
        held-balance t.from s,
        held-balance t.from s',
        debited t s m.enough,
        ap (λ (f : ℕ → ℕ). f t.from) m.after,
      );
  others = λ t s s' key e h.
      let m = made t s s' e in
      omega (
        arith,
        held-balance key s,
        held-balance key s',
        grown t s key h,
        ap (λ (f : ℕ → ℕ). f key) m.after,
      );
  unsigned = λ t s s' e n.
      let m = made t s s' e in
      let o = m.open_vault in ((λ p. ground (arith, o, n, p)), (λ p. ground (arith, o, n, p)));
}
