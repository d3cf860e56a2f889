-- ===== src/Utf8/Canonical.antt =====
-- What `unicode_from_utf8` accepts is the encoding of what it returns: no other byte sequence.
use quickjs_rs.Base.{ℕ, suc, ◌+◌, ◌-◌, ◌*◌, ◌%◌, ◌≤◌, ◌<◌, dec_lt}
use quickjs_rs.Base.{◌≡◌, refl, arith, List, [], ◌∷◌, ◌++◌, length, ap₂, ◌↔◌, ◌∙◌, sym, none, some}
use quickjs_rs.Utf8.{unicode_to_utf8, decode_trail, unicode_from_utf8, trail_count, char, invalid}
use quickjs_rs.Utf8.Encode.{encode_1, encode_2, encode_3, encode_4, encode_5, encode_6}
use quickjs_rs.Utf8.Decode.{
  trail_step, lead_1_step, lead_2_step, lead_3_step, lead_4_step, lead_5_step, lead_6_step,
}
use quickjs_rs.Utf8.RoundTrip.{decode-encode}

-- What one round of the loop needs to go on to a result.
record Round (left min_code c : ℕ) (p : List ℕ) (e : ℕ) (rest : List ℕ) : Type 0 where
  byte : ℕ
  after : List ℕ
  shape : p ≡ byte ∷ after
  low : 0x80 ≤ byte
  high : byte < 0xc0
  next : decode_trail left min_code (c * 64 + byte % 64) after ≡ char e rest

round :
    (left min_code c : ℕ) (p : List ℕ) (e : ℕ) (rest : List ℕ)
    → decode_trail (suc left) min_code c p ≡ char e rest
    → Round left min_code c p e rest
unfolding decode_trail
round left min_code c [] e rest h = cc
round left min_code c (b ∷ p) e rest h = record {
  byte = b;
  after = p;
  shape = refl;
  low = in_range.0;
  high = in_range.1;
  next = sym (trail_step left min_code c b p in_range.0 in_range.1) ∙ h;
}
  where
    in_range : (0x80 ≤ b) × (b < 0xc0)
    in_range = ground arith

finish :
    (min_code c : ℕ) (p : List ℕ) (e : ℕ) (rest : List ℕ)
    → decode_trail 0 min_code c p ≡ char e rest
    → (e ≡ c) × (rest ≡ p) × (min_code ≤ c)
unfolding decode_trail
finish min_code c p e rest h = ground arith

abbrev Accepts : List ℕ → ℕ → ℕ → List ℕ → Type 0
Accepts p max_len c rest =
    (c < 0x80000000) × (length (unicode_to_utf8 c) ≤ max_len) × (p ≡ unicode_to_utf8 c ++ rest)

-- The classes of a first byte.
data Lead (c : ℕ) : Type 0 where
  ascii : c < 0x80 → Lead c
  lead_2 : 0xc0 ≤ c → c ≤ 0xdf → Lead c
  lead_3 : 0xe0 ≤ c → c ≤ 0xef → Lead c
  lead_4 : 0xf0 ≤ c → c ≤ 0xf7 → Lead c
  lead_5 : 0xf8 ≤ c → c ≤ 0xfb → Lead c
  lead_6 : 0xfc ≤ c → c ≤ 0xfd → Lead c
  not_lead : 0x80 ≤ c → trail_count c ≡ none → Lead c

Lead-of : (c : ℕ) → Lead c
unfolding trail_count
Lead-of c = elim (dec_lt c 0x80) [
  | yes h ↦ ascii h
  | no h ↦ elim (dec_lt c 0xc0) [
    | yes h1 ↦ not_lead (omega arith) (ground arith)
    | no h1 ↦ elim (dec_lt c 0xe0) [
      | yes h2 ↦ lead_2 (omega arith) (omega arith)
      | no h2 ↦ elim (dec_lt c 0xf0) [
        | yes h3 ↦ lead_3 (omega arith) (omega arith)
        | no h3 ↦ elim (dec_lt c 0xf8) [
          | yes h4 ↦ lead_4 (omega arith) (omega arith)
          | no h4 ↦ elim (dec_lt c 0xfc) [
            | yes h5 ↦ lead_5 (omega arith) (omega arith)
            | no h5 ↦ elim (dec_lt c 0xfe) [
              | yes h6 ↦ lead_6 (omega arith) (omega arith)
              | no h6 ↦ not_lead (omega arith) (ground arith)
            ]
          ]
        ]
      ]
    ]
  ]
]

not_lead_step :
    (c max_len : ℕ) (p : List ℕ)
    → 0x80 ≤ c
    → trail_count c ≡ none
    → unicode_from_utf8 (c ∷ p) max_len ≡ invalid
unfolding unicode_from_utf8
not_lead_step c max_len p lo h = ground arith

-- A sequence that is longer than `max_len` is refused before its bytes are read.
room :
    (c max_len l : ℕ) (p : List ℕ) (e : ℕ) (rest : List ℕ)
    → 0x80 ≤ c
    → trail_count c ≡ some l
    → unicode_from_utf8 (c ∷ p) max_len ≡ char e rest
    → l ≤ max_len - 1
unfolding unicode_from_utf8
room c max_len l p e rest lo t h = ground arith

module _ (c max_len : ℕ) (p : List ℕ) (e : ℕ) (rest : List ℕ)
    (h : unicode_from_utf8 (c ∷ p) max_len ≡ char e rest) where
  accept_2 : 0xc0 ≤ c → c ≤ 0xdf → 1 ≤ max_len - 1 → Accepts (c ∷ p) max_len e rest
  accept_2 lo hi fits =
      let r1 =
        round 0 0x80 (c % 32) p e rest (sym (lead_2_step c max_len p lo hi (omega arith)) ∙ h) in
      let f = finish 0x80 _ r1.after e rest r1.next in
      let enc = encode_2 e (omega arith) (omega arith) in
      (
        omega arith,
        rw enc (omega arith),
        rw (enc, r1.shape) (ap₂ ◌∷◌ (omega arith) (ap₂ ◌∷◌ (omega arith) (sym f.1))),
      )

  accept_3 : 0xe0 ≤ c → c ≤ 0xef → 2 ≤ max_len - 1 → Accepts (c ∷ p) max_len e rest
  accept_3 lo hi fits =
      let r2 =
        round 1 0x800 (c % 16) p e rest (sym (lead_3_step c max_len p lo hi (omega arith)) ∙ h) in
      let r1 = round 0 0x800 _ r2.after e rest r2.next in
      let f = finish 0x800 _ r1.after e rest r1.next in
      let enc = encode_3 e (omega arith) (omega arith) in
      (
        omega arith,
        rw enc (omega arith),
        rw (enc, r2.shape, r1.shape)
            (ap₂ ◌∷◌ (omega arith) (ap₂ ◌∷◌ (omega arith) (ap₂ ◌∷◌ (omega arith) (sym f.1)))),
      )

  accept_4 : 0xf0 ≤ c → c ≤ 0xf7 → 3 ≤ max_len - 1 → Accepts (c ∷ p) max_len e rest
  accept_4 lo hi fits =
      let r3 =
        round 2 0x10000 (c % 8) p e rest (sym (lead_4_step c max_len p lo hi (omega arith)) ∙ h) in
      let r2 = round 1 0x10000 _ r3.after e rest r3.next in
      let r1 = round 0 0x10000 _ r2.after e rest r2.next in
      let f = finish 0x10000 _ r1.after e rest r1.next in
      let enc = encode_4 e (omega arith) (omega arith) in
      (
        omega arith,
        rw enc (omega arith),
        rw (enc, r3.shape, r2.shape, r1.shape)
            (ap₂ ◌∷◌ (omega arith)
              (ap₂ ◌∷◌ (omega arith) (ap₂ ◌∷◌ (omega arith) (ap₂ ◌∷◌ (omega arith) (sym f.1))))),
      )

  accept_5 : 0xf8 ≤ c → c ≤ 0xfb → 4 ≤ max_len - 1 → Accepts (c ∷ p) max_len e rest
  accept_5 lo hi fits =
      let r4 =
        round 3 0x200000 (c % 4) p e rest (sym (lead_5_step c max_len p lo hi (omega arith)) ∙ h) in
      let r3 = round 2 0x200000 _ r4.after e rest r4.next in
      let r2 = round 1 0x200000 _ r3.after e rest r3.next in
      let r1 = round 0 0x200000 _ r2.after e rest r2.next in
      let f = finish 0x200000 _ r1.after e rest r1.next in
      let enc = encode_5 e (omega arith) (omega arith) in
      (
        omega arith,
        rw enc (omega arith),
        rw (enc, r4.shape, r3.shape, r2.shape, r1.shape)
            (ap₂ ◌∷◌ (omega arith) (
              ap₂ ◌∷◌ (omega arith)
                (ap₂ ◌∷◌ (omega arith) (ap₂ ◌∷◌ (omega arith) (ap₂ ◌∷◌ (omega arith) (sym f.1)))))),
      )

  accept_6 : 0xfc ≤ c → c ≤ 0xfd → 5 ≤ max_len - 1 → Accepts (c ∷ p) max_len e rest
  accept_6 lo hi fits =
      let r5 =
        round 4 0x4000000 (c % 2) p e rest
          (sym (lead_6_step c max_len p lo hi (omega arith)) ∙ h) in
      let r4 = round 3 0x4000000 _ r5.after e rest r5.next in
      let r3 = round 2 0x4000000 _ r4.after e rest r4.next in
      let r2 = round 1 0x4000000 _ r3.after e rest r3.next in
      let r1 = round 0 0x4000000 _ r2.after e rest r2.next in
      let f = finish 0x4000000 _ r1.after e rest r1.next in
      let enc = encode_6 e (omega arith) (omega arith) in
      (
        omega arith,
        rw enc (omega arith),
        rw (enc, r5.shape, r4.shape, r3.shape, r2.shape, r1.shape)
            (ap₂ ◌∷◌ (omega arith) (
              ap₂ ◌∷◌ (omega arith) (
                ap₂ ◌∷◌ (omega arith) (
                  ap₂ ◌∷◌ (omega arith)
                    (ap₂ ◌∷◌ (omega arith) (ap₂ ◌∷◌ (omega arith) (sym f.1))))))),
      )

accept :
    (c max_len : ℕ) (p : List ℕ) (e : ℕ) (rest : List ℕ)
    → 1 ≤ max_len
    → unicode_from_utf8 (c ∷ p) max_len ≡ char e rest
    → Lead c
    → Accepts (c ∷ p) max_len e rest
accept c max_len p e rest one h (ascii a) =
    let same : char c p ≡ char e rest = sym (lead_1_step c max_len p a) ∙ h in
    let code : c ≡ e = cc in
    let tail : p ≡ rest = cc in
    let enc = encode_1 e (omega arith) in
    (omega arith, rw enc (omega arith), rw enc (ap₂ ◌∷◌ code tail))
accept c max_len p e rest one h (lead_2 lo hi) =
    accept_2 c max_len p e rest h lo hi
      (room c max_len 1 p e rest (omega arith) (unfold trail_count in ground arith) h)
accept c max_len p e rest one h (lead_3 lo hi) =
    accept_3 c max_len p e rest h lo hi
      (room c max_len 2 p e rest (omega arith) (unfold trail_count in ground arith) h)
accept c max_len p e rest one h (lead_4 lo hi) =
    accept_4 c max_len p e rest h lo hi
      (room c max_len 3 p e rest (omega arith) (unfold trail_count in ground arith) h)
accept c max_len p e rest one h (lead_5 lo hi) =
    accept_5 c max_len p e rest h lo hi
      (room c max_len 4 p e rest (omega arith) (unfold trail_count in ground arith) h)
accept c max_len p e rest one h (lead_6 lo hi) =
    accept_6 c max_len p e rest h lo hi
      (room c max_len 5 p e rest (omega arith) (unfold trail_count in ground arith) h)
accept c max_len p e rest one h (not_lead lo t) = absurd (cc (not_lead_step c max_len p lo t))

accepts :
    (p : List ℕ) (max_len c : ℕ) (rest : List ℕ)
    → 1 ≤ max_len
    → unicode_from_utf8 p max_len ≡ char c rest
    → Accepts p max_len c rest
accepts [] max_len c rest one h = absurd (unfold unicode_from_utf8 in cc)
accepts (b ∷ p) max_len c rest one h = accept b max_len p c rest one h (Lead-of b)

-- With `max_len` at least 1, the decoder returns `c` and leaves the pointer at `rest` exactly when
-- `c` is below 2 ^ 31, its encoding has at most `max_len` bytes, and the buffer is that encoding
-- followed by `rest`. So each code has one accepted form, the shortest, and every code is accepted.
pub decode_iff :
    (p : List ℕ) (max_len c : ℕ) (rest : List ℕ)
    → 1 ≤ max_len
    → (unicode_from_utf8 p max_len ≡ char c rest) ↔ (
        (c < 0x80000000) × (length (unicode_to_utf8 c) ≤ max_len) × (p ≡ unicode_to_utf8 c ++ rest))
decode_iff p max_len c rest one =
    (accepts p max_len c rest one, λ a. rw (a.2) (decode-encode c max_len rest (a.0) (a.1)))
