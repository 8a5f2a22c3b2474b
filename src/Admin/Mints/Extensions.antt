-- ===== src/Admin/Mints/Extensions.antt =====
-- The scan of a mint's extensions in program/src/admin/create_market.rs, against the entries that the
-- extension region holds.
use solana_orderbook.Base.{
  ℕ, zero, suc, ◌+◌, ◌*◌, ◌⊎◌, ltb→lt, sym, ◌≤◌, ◌<◌, ◌≡◌, refl, subst, inl, inr, Bool, true, false,
  Bool-cases, Option, none, some, List, ◌==◌, ltb, leb, arith,
}
use solana_orderbook.Base.Bytes.{length, u16_at}
use solana_orderbook.Admin.Mints.{
  entry_end, scan, has_permanent_delegate_bytes, permanent_delegate_extension_type,
}

-- The entries of the region, each a type and a length of two bytes, and the value.
pub data IsEntry (bytes : List ℕ) : ℕ → ℕ → Type 0 where
  here : (i : ℕ) → i + 4 ≤ length bytes → IsEntry bytes i i
  next :
      {i j : ℕ}
      → i + 4 ≤ length bytes
      → IsEntry bytes (i + (4 + u16_at (i + 2) bytes)) j
      → IsEntry bytes i j

-- The region from `i` on has an entry for a permanent delegate.
abbrev pub HasDelegate : List ℕ → ℕ → Type 0
HasDelegate bytes i =
    (j : ℕ) × (IsEntry bytes i j × (u16_at j bytes ≡ permanent_delegate_extension_type))

-- The answer of a scan from `i` on is there, and right.
abbrev pub Answers : List ℕ → ℕ → Option Bool → Type 0
Answers bytes i none = ⊥
Answers bytes i (some true) = HasDelegate bytes i
Answers bytes i (some false) = ¬ HasDelegate bytes i

no-entry : (bytes : List ℕ) (i j : ℕ) → length bytes < i + 4 → ¬ IsEntry bytes i j
no-entry bytes i j small (here k fits) = omega arith
no-entry bytes i j small (next fits e) = omega arith

-- An entry from `i` on is the one at `i`, or one after it.
later :
    (bytes : List ℕ) (i j : ℕ) → IsEntry bytes i j → (i ≡ j) ⊎ IsEntry bytes (entry_end bytes i) j
unfolding entry_end
later bytes i j (here k fits) = inl refl
later bytes i j (next fits e) = inr e

skipped :
    (bytes : List ℕ) (i : ℕ)
    → (u16_at i bytes == 12) ≡ false
    → HasDelegate bytes i
    → HasDelegate bytes (entry_end bytes i)
skipped bytes i h (j, (e, d)) = elim (later bytes i j e) [
  | inl p ↦ absurd (differs p)
  | inr f ↦ (j, (f, d))
]
  where
    differs : ¬ (i ≡ j)
    differs p =
        let at : u16_at i bytes ≡ 12 = subst (λ (k : ℕ). u16_at k bytes ≡ 12) (sym p) d in
        ground (arith, at)

rest-Answers :
    (bytes : List ℕ) (i : ℕ) (o : Option Bool)
    → i + 4 ≤ length bytes
    → (u16_at i bytes == 12) ≡ false
    → Answers bytes (entry_end bytes i) o
    → Answers bytes i o
unfolding entry_end
rest-Answers bytes i none fits h a = a
rest-Answers bytes i (some true) fits h (j, (e, d)) = (j, (next fits e, d))
rest-Answers bytes i (some false) fits h a = λ x. a (skipped bytes i h x)

further :
    (rounds : ℕ) (bytes : List ℕ) (i : ℕ)
    → length bytes < i + 4 * suc rounds
    → length bytes < entry_end bytes i + 4 * rounds
unfolding entry_end
further rounds bytes i h = omega arith

pub scan-Answers :
    (rounds : ℕ) (bytes : List ℕ) (i : ℕ)
    → 0 < rounds
    → length bytes < i + 4 * rounds
    → Answers bytes i (scan rounds bytes i)
unfolding scan
scan-Answers zero bytes i some_rounds enough = omega arith
scan-Answers (suc rounds) bytes i some_rounds enough =
    elim (Bool-cases (ltb (length bytes) (i + 4))) [
      | inl e ↦ rw e λ (j, (x, d)). no-entry bytes i j (ltb→lt _ _ e) x
      | inr e ↦ rw e (elim (Bool-cases (u16_at i bytes == 12)) [
        | inl h ↦ rw h (i, (here i (ground arith), ground arith))
        | inr h ↦ rw h (
            rest-Answers bytes i _ (ground arith) h (
              scan-Answers rounds bytes (entry_end bytes i) (ground arith)
                (further rounds bytes i enough)))
      ])
    ]

-- For at least as many rounds as the mint has bytes, `has_permanent_delegate_bytes` has an
-- answer, and it is true exactly if an entry of the extension region, from byte 166 on, is that
-- of a permanent delegate.
pub has_permanent_delegate_bytes-Answers :
    (rounds : ℕ) (bytes : List ℕ)
    → length bytes ≤ rounds
    → Answers bytes 166 (has_permanent_delegate_bytes rounds bytes)
unfolding has_permanent_delegate_bytes
has_permanent_delegate_bytes-Answers rounds bytes enough =
    elim (Bool-cases (leb (length bytes) 82)) [
      | inl e ↦ rw e λ (j, (x, d)). no-entry bytes 166 j (ground arith) x
      | inr e ↦ rw e (scan-Answers rounds bytes 166 (ground arith) (ground arith))
    ]
