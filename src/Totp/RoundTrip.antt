-- ===== src/Totp/RoundTrip.antt =====
-- Decoding is the inverse of encoding (backend/src/auth/totp.ts, `base32Encode`, `base32Decode`).
use sistema_de_gestion_de_po.Common.{
  same_number, ℕ, zero, suc, ◌+◌, ◌-◌, ◌*◌, ◌/◌, ◌%◌, ◌^◌, ◌<◌, ◌≤◌, ◌≡◌, refl, ap, ◌∙◌, Bool, true,
  false, not, ◌&&◌, ◌||◌, Option, none, some, List, [], ◌∷◌, ◌++◌, map, keep, All, leb, ◌==◌,
  if◌then◌else◌, opt_map, arith, inl, inr, Bool-cases,
}
use sistema_de_gestion_de_po.Totp.{
  symbol, symbol_value, encode_loop, decode_loop, emit, base32_encode, base32_decode, to_upper,
  is_space,
}

-- A test that holds below `n` checked number by number.
abbrev below : ℕ → (ℕ → Bool) → Bool
below zero p = true
below (suc n) p = p n && below n p

below_apply : (p : ℕ → Bool) (n i : ℕ) → below n p ≡ true → i < n → p i ≡ true
below_apply p zero i h lt = ground arith
below_apply p (suc n) i h lt = elim (Bool-cases (i == n)) [
  | inl e ↦ rw (same_number i n e) (ground (arith, h))
  | inr e ↦ below_apply p n i (ground (arith, h)) (ground (arith, e))
]

abbrev is_value : Option ℕ → ℕ → Bool
is_value none i = false
is_value (some v) i = v == i

is_value_eq : (o : Option ℕ) (i : ℕ) → is_value o i ≡ true → o ≡ some i
is_value_eq none i h = ground (arith, h)
is_value_eq (some v) i h = ap some (same_number v i h)

all_symbols_read : below 32 (λ i. is_value (symbol_value (symbol i)) i) ≡ true
unfolding symbol symbol_value
all_symbols_read = refl

symbol_value-symbol : (i : ℕ) → i < 32 → symbol_value (symbol i) ≡ some i
symbol_value-symbol i lt =
    is_value_eq (symbol_value (symbol i)) i
      (below_apply (λ i. is_value (symbol_value (symbol i)) i) 32 i all_symbols_read lt)

decode_short :
    (v b i : ℕ) (cs : List ℕ)
    → i < 32
    → b + 5 < 8
    → decode_loop v b (symbol i ∷ cs) ≡ decode_loop ((v * 32 + i) % 2 ^ 32) (b + 5) cs
decode_short v b i cs lt short = rw (decode_loop, symbol_value-symbol i lt) (ground arith)

decode_full :
    (v b i : ℕ) (cs : List ℕ)
    → i < 32
    → 8 ≤ b + 5
    → decode_loop v b (symbol i ∷ cs)
      ≡ opt_map
          (λ out. ((((v * 32 + i) % 2 ^ 32) / 2 ^ ((b + 5) - 8)) % 256) ∷ out)
          (decode_loop ((v * 32 + i) % 2 ^ 32) ((b + 5) - 8) cs)
decode_full v b i cs lt full = rw (decode_loop, symbol_value-symbol i lt) (ground arith)

abbrev Bytes : List ℕ → Type 0
Bytes bs = All (λ (b : ℕ). b < 256) bs

-- `e` bits of the byte `last` wait in the encoder and the decoder holds the others.
abbrev Resumes : ℕ → ℕ → List ℕ → Type 0
Resumes e d bs =
    (ev dv last : ℕ)
    → last < 256
    → (dv % 2 ^ d) * 2 ^ e + ev % 2 ^ e ≡ last
    → decode_loop dv d (encode_loop ev e bs) ≡ some (last ∷ bs)

abbrev Aligned : List ℕ → Type 0
Aligned bs = (ev dv : ℕ) → decode_loop dv 0 (encode_loop ev 0 bs) ≡ some bs

step_0 : (b : ℕ) (bs : List ℕ) → b < 256 → Resumes 3 5 bs → Aligned (b ∷ bs)
step_0 b bs lt next ev dv =
    let ev' = (ev * 256 + b) % 2 ^ 32 in
    let i = (ev' / 8) % 32 in
    decode_short dv 0 i (encode_loop ev' 3 bs) (omega arith) (omega arith)
    ∙ next ev' ((dv * 32 + i) % 2 ^ 32) b lt (omega arith)

end_3 : Resumes 3 5 []
end_3 ev dv last lt whole =
    let i = (ev * 4) % 32 in
    decode_full dv 5 i [] (omega arith) (omega arith)
    ∙ ap some (ap (λ (t : ℕ). t ∷ []) (omega (arith, whole)))

step_3 : (b : ℕ) (bs : List ℕ) → b < 256 → Resumes 1 7 bs → Resumes 3 5 (b ∷ bs)
step_3 b bs lt next ev dv last lt' whole =
    let ev' = (ev * 256 + b) % 2 ^ 32 in
    let i = (ev' / 64) % 32 in
    let j = (ev' / 2) % 32 in
    let dv' = (dv * 32 + i) % 2 ^ 32 in
    decode_full dv 5 i (symbol j ∷ encode_loop ev' 1 bs) (omega arith) (omega arith)
    ∙ (rw
        (
          decode_short dv' 2 j (encode_loop ev' 1 bs) (omega arith) (omega arith),
          next ev' ((dv' * 32 + j) % 2 ^ 32) b lt (omega arith),
        )
        (ap some (ap (λ (t : ℕ). t ∷ b ∷ bs) (omega (arith, whole)))))

end_1 : Resumes 1 7 []
end_1 ev dv last lt whole =
    let i = (ev * 16) % 32 in
    decode_full dv 7 i [] (omega arith) (omega arith)
    ∙ ap some (ap (λ (t : ℕ). t ∷ []) (omega (arith, whole)))

step_1 : (b : ℕ) (bs : List ℕ) → b < 256 → Resumes 4 4 bs → Resumes 1 7 (b ∷ bs)
step_1 b bs lt next ev dv last lt' whole =
    let ev' = (ev * 256 + b) % 2 ^ 32 in
    let i = (ev' / 16) % 32 in
    let dv' = (dv * 32 + i) % 2 ^ 32 in
    decode_full dv 7 i (encode_loop ev' 4 bs) (omega arith) (omega arith)
    ∙ (rw (next ev' dv' b lt (omega arith))
        (ap some (ap (λ (t : ℕ). t ∷ b ∷ bs) (omega (arith, whole)))))

end_4 : Resumes 4 4 []
end_4 ev dv last lt whole =
    let i = (ev * 2) % 32 in
    decode_full dv 4 i [] (omega arith) (omega arith)
    ∙ ap some (ap (λ (t : ℕ). t ∷ []) (omega (arith, whole)))

step_4 : (b : ℕ) (bs : List ℕ) → b < 256 → Resumes 2 6 bs → Resumes 4 4 (b ∷ bs)
step_4 b bs lt next ev dv last lt' whole =
    let ev' = (ev * 256 + b) % 2 ^ 32 in
    let i = (ev' / 128) % 32 in
    let j = (ev' / 4) % 32 in
    let dv' = (dv * 32 + i) % 2 ^ 32 in
    decode_full dv 4 i (symbol j ∷ encode_loop ev' 2 bs) (omega arith) (omega arith)
    ∙ (rw
        (
          decode_short dv' 1 j (encode_loop ev' 2 bs) (omega arith) (omega arith),
          next ev' ((dv' * 32 + j) % 2 ^ 32) b lt (omega arith),
        )
        (ap some (ap (λ (t : ℕ). t ∷ b ∷ bs) (omega (arith, whole)))))

end_2 : Resumes 2 6 []
end_2 ev dv last lt whole =
    let i = (ev * 8) % 32 in
    decode_full dv 6 i [] (omega arith) (omega arith)
    ∙ ap some (ap (λ (t : ℕ). t ∷ []) (omega (arith, whole)))

two_bytes :
    {x y x' y' : ℕ} (bs : List ℕ) → x ≡ x' → y ≡ y' → some (x ∷ y ∷ bs) ≡ some (x' ∷ y' ∷ bs)
two_bytes bs e e' = rw (e, e') refl

step_2 : (b : ℕ) (bs : List ℕ) → b < 256 → Aligned bs → Resumes 2 6 (b ∷ bs)
step_2 b bs lt next ev dv last lt' whole =
    let ev' = (ev * 256 + b) % 2 ^ 32 in
    let i = (ev' / 32) % 32 in
    let j = (ev' / 1) % 32 in
    let dv' = (dv * 32 + i) % 2 ^ 32 in
    decode_full dv 6 i (symbol j ∷ encode_loop ev' 0 bs) (omega arith) (omega arith)
    ∙ (rw
        (
          decode_full dv' 3 j (encode_loop ev' 0 bs) (omega arith) (omega arith),
          next ev' ((dv' * 32 + j) % 2 ^ 32),
        )
        (two_bytes bs (omega (arith, whole)) (omega arith)))

every_state :
    (bs : List ℕ)
    → Bytes bs
    → Aligned bs × Resumes 3 5 bs × Resumes 1 7 bs × Resumes 4 4 bs × Resumes 2 6 bs
every_state [] h = ((λ ev dv. refl), end_3, end_1, end_4, end_2)
every_state (b ∷ bs) (lt, h) =
    let (a, three, one, four, two) = every_state bs h in
    (
      step_0 b bs lt three,
      step_3 b bs lt one,
      step_1 b bs lt four,
      step_4 b bs lt two,
      step_2 b bs lt a,
    )

abbrev is_clean : ℕ → Bool
is_clean c = (to_upper c == c) && not (is_space c || (c == 61))

all_symbols_clean : below 32 (λ i. is_clean (symbol i)) ≡ true
unfolding symbol
all_symbols_clean = refl

abbrev Clean : List ℕ → Type 0
Clean cs = All (λ (c : ℕ). is_clean c ≡ true) cs

symbol-Clean : (i : ℕ) → is_clean (symbol (i % 32)) ≡ true
symbol-Clean i = below_apply (λ i. is_clean (symbol i)) 32 (i % 32) all_symbols_clean (omega arith)

append-Clean : (cs ds : List ℕ) → Clean cs → Clean ds → Clean (cs ++ ds)
append-Clean [] ds h h' = h'
append-Clean (c ∷ cs) ds (h, hs) h' = (h, append-Clean cs ds hs h')

emit-Clean : (value bits : ℕ) → Clean (emit value bits)
emit-Clean value (suc (suc (suc (suc (suc bits))))) =
    (symbol-Clean (value / 2 ^ bits), emit-Clean value bits)
emit-Clean value (suc (suc (suc (suc zero)))) = tt
emit-Clean value (suc (suc (suc zero))) = tt
emit-Clean value (suc (suc zero)) = tt
emit-Clean value (suc zero) = tt
emit-Clean value zero = tt

padding-Clean : (b : Bool) (c : ℕ) → is_clean c ≡ true → Clean (if b then c ∷ [] else [])
padding-Clean true c h = (h, tt)
padding-Clean false c h = tt

encode_loop-Clean : (value bits : ℕ) (bs : List ℕ) → Clean (encode_loop value bits bs)
encode_loop-Clean value bits [] =
    padding-Clean (leb 1 bits) (symbol ((value * 2 ^ (5 - bits)) % 32))
      (symbol-Clean (value * 2 ^ (5 - bits)))
encode_loop-Clean value bits (b ∷ bs) =
    append-Clean (emit ((value * 256 + b) % 2 ^ 32) (bits + 8)) _
      (emit-Clean ((value * 256 + b) % 2 ^ 32) (bits + 8))
      (encode_loop-Clean ((value * 256 + b) % 2 ^ 32) ((bits + 8) % 5) bs)

character-Clean :
    (c : ℕ) → is_clean c ≡ true → (to_upper c ≡ c) × (not (is_space c || (c == 61)) ≡ true)
character-Clean c h = ground (arith, h)

keep-Clean :
    (cs : List ℕ) → Clean cs → keep (λ c. not (is_space c || (c == 61))) (map to_upper cs) ≡ cs
keep-Clean [] h = refl
keep-Clean (c ∷ cs) (h, hs) =
    let (same, kept) = character-Clean c h in rw (same, kept, keep-Clean cs hs) refl

-- A buffer of bytes is read back from the text that encodes it, whatever its length.
pub base32_decode-base32_encode :
    (bs : List ℕ) → All (λ (b : ℕ). b < 256) bs → base32_decode (base32_encode bs) ≡ some bs
unfolding base32_decode base32_encode
base32_decode-base32_encode bs h =
    rw (keep-Clean (encode_loop 0 0 bs) (encode_loop-Clean 0 0 bs)) ((every_state bs h).0 0 0)
