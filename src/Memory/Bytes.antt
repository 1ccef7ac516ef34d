-- ===== src/Memory/Bytes.antt =====
-- The bytes of data units, as read() fills them through a char pointer: a word is eight of them, the
-- lowest first.
use x_expr.Prelude.{
  ℕ, zero, suc, ◌+◌, ◌*◌, ◌/◌, ◌%◌, ◌≤◌, ◌<◌, ◌≡◌, ◌≢◌, inl, inr, Option, none, some, List, [], ◌∷◌,
  get_elem?, set, length, arith, refl, sym, ap, ◌∙◌, ◌==◌, Bool-cases, Option-cases, eq_of_==,
  ne_of_==,
}
use x_expr.Memory.{Word}

-- Byte `k` of a word, and the word with that byte as given.
unfoldable pub byte : Word → (k : ℕ) → ℕ
byte w zero = w % 256
byte w (suc k) = byte (w / 256) k

unfoldable pub put_byte : Word → (k b : ℕ) → Word
put_byte w zero b = b + 256 * (w / 256)
put_byte w (suc k) b = w % 256 + 256 * put_byte (w / 256) k b

-- Bytes stored one after the other from offset `at` of the units on; `none` past the last of them.
unfoldable pub poke : List Word → (at : ℕ) → List ℕ → Option (List Word)
unfolding put_byte
poke us at [] = some us
poke us at (b ∷ bs) = elim (get_elem? us (at / 8)) [
  | none ↦ none
  | some w ↦ poke (set us (at / 8) (put_byte w (at % 8) b)) (at + 1) bs
]

-- The byte at an offset of the units.
unfoldable pub peek : List Word → ℕ → Option ℕ
unfolding byte
peek us at = elim (get_elem? us (at / 8)) [ none ↦ none | some w ↦ some (byte w (at % 8)) ]

high : (w r : ℕ) → r < 256 → (r + 256 * w) / 256 ≡ w
high w r h = omega (arith, h)

low : (w r : ℕ) → r < 256 → (r + 256 * w) % 256 ≡ r
low w r h = omega (arith, h)

rem : (w : ℕ) → w % 256 < 256
rem w = omega arith

byte-put : (w k : ℕ) {b : ℕ} → b < 256 → byte (put_byte w k b) k ≡ b
unfolding byte put_byte
byte-put w zero {b} h = low (w / 256) b h
byte-put w (suc k) {b} h =
    rw (high (put_byte (w / 256) k b) (w % 256) (rem w)) (byte-put (w / 256) k h)

byte-put_other : (w k j : ℕ) {b : ℕ} → b < 256 → k ≢ j → byte (put_byte w k b) j ≡ byte w j
unfolding byte put_byte
byte-put_other w zero zero h e = absurd (e refl)
byte-put_other w zero (suc j) {b} h e = ap (λ x. byte x j) (high (w / 256) b h)
byte-put_other w (suc k) zero {b} h e = low (put_byte (w / 256) k b) (w % 256) (rem w)
byte-put_other w (suc k) (suc j) {b} h e =
    rw (high (put_byte (w / 256) k b) (w % 256) (rem w))
      (byte-put_other (w / 256) k j h (λ s. e (ap suc s)))

get_elem?-lt : (us : List Word) (i : ℕ) → i < length us → (w : Word) × (get_elem? us i ≡ some w)
get_elem?-lt [] i h = absurd (omega (arith, h))
get_elem?-lt (u ∷ us) zero h = (u, refl)
get_elem?-lt (u ∷ us) (suc i) h = get_elem?-lt us i (omega (arith, h))

get_elem?-set :
    (us : List Word) (i v : ℕ) {w : Word}
    → get_elem? us i ≡ some w
    → get_elem? (set us i v) i ≡ some v
get_elem?-set [] i v h = absurd (cc)
get_elem?-set (u ∷ us) zero v h = refl
get_elem?-set (u ∷ us) (suc i) v h = get_elem?-set us i v h

get_elem?-set_other :
    (us : List Word) (i j v : ℕ) → i ≢ j → get_elem? (set us i v) j ≡ get_elem? us j
get_elem?-set_other [] i j v e = refl
get_elem?-set_other (u ∷ us) zero zero v e = absurd (e refl)
get_elem?-set_other (u ∷ us) zero (suc j) v e = refl
get_elem?-set_other (u ∷ us) (suc i) zero v e = refl
get_elem?-set_other (u ∷ us) (suc i) (suc j) v e = get_elem?-set_other us i j v (λ s. e (ap suc s))

length-set : (us : List Word) (i v : ℕ) → length (set us i v) ≡ length us
length-set [] i v = refl
length-set (u ∷ us) zero v = refl
length-set (u ∷ us) (suc i) v = ap suc (length-set us i v)

abbrev pub stored : List Word → (at b : ℕ) → Word → List Word
stored us at b w = set us (at / 8) (put_byte w (at % 8) b)

poke-some :
    (us : List Word) (at b : ℕ) (bs : List ℕ) {w : Word}
    → get_elem? us (at / 8) ≡ some w
    → poke us at (b ∷ bs) ≡ poke (stored us at b w) (at + 1) bs
unfolding poke
poke-some us at b bs e = rw (poke, e)

poke-inv :
    (us : List Word) (at b : ℕ) (bs : List ℕ) {vs : List Word}
    → poke us at (b ∷ bs) ≡ some vs
    → (w : Word) × (get_elem? us (at / 8) ≡ some w)
      × (poke (stored us at b w) (at + 1) bs ≡ some vs)
unfolding poke
poke-inv us at b bs h = elim (Option-cases (get_elem? us (at / 8))) [
  | inl e ↦ absurd (cc)
  | inr (w, e) ↦ (w, e, sym (poke-some us at b bs e) ∙ h)
]

peek-some :
    (us : List Word) (at : ℕ) {w : Word}
    → get_elem? us (at / 8) ≡ some w
    → peek us at ≡ some (byte w (at % 8))
unfolding peek
peek-some us at e = rw (peek, e)

-- Bytes that fit can be stored.
pub poke-fits :
    (us : List Word) (at : ℕ) (bs : List ℕ)
    → at + length bs ≤ 8 * length us
    → (vs : List Word) × (poke us at bs ≡ some vs)
unfolding poke
poke-fits us at [] h = (us, refl)
poke-fits us at (b ∷ bs) h =
    let (w, e) = get_elem?-lt us (at / 8) (omega (arith, h)) in
    let len = length-set us (at / 8) (put_byte w (at % 8) b) in
    let (vs, later) = poke-fits (stored us at b w) (at + 1) bs (omega (arith, h, len)) in
    (vs, poke-some us at b bs e ∙ later)

-- A stored byte is the one at its offset, and the others stay.
peek-stored :
    (us : List Word) (at : ℕ) {w b : ℕ}
    → get_elem? us (at / 8) ≡ some w
    → b < 256
    → peek (stored us at b w) at ≡ some b
peek-stored us at {w} {b} e h =
    peek-some (stored us at b w) at (get_elem?-set us (at / 8) (put_byte w (at % 8) b) e)
    ∙ ap some (byte-put w (at % 8) h)

peek-stored_other :
    (us : List Word) (at j : ℕ) {w b : ℕ}
    → get_elem? us (at / 8) ≡ some w
    → b < 256
    → at ≢ j
    → peek (stored us at b w) j ≡ peek us j
unfolding peek
peek-stored_other us at j {w} {b} e h other = elim (Bool-cases (at / 8 == j / 8)) [
  | inl alike ↦
      let same : at / 8 ≡ j / 8 = eq_of_== (at / 8) (j / 8) alike in
      let inside : at % 8 ≢ j % 8 = λ s. other (omega (arith, same, s)) in
      let put = get_elem?-set us (at / 8) (put_byte w (at % 8) b) e in
      peek-some (stored us at b w) j (ap (λ i. get_elem? (stored us at b w) i) (sym same) ∙ put)
      ∙ ap some (byte-put_other w (at % 8) (j % 8) h inside)
      ∙ sym (peek-some us j (ap (λ i. get_elem? us i) (sym same) ∙ e))
  | inr apart ↦
      let keeps =
        get_elem?-set_other us (at / 8) (j / 8) (put_byte w (at % 8) b)
          (ne_of_== (at / 8) (j / 8) apart) in
      ap (λ o. elim o [ none ↦ none | some x ↦ some (byte x (j % 8)) ]) keeps
]

-- Every byte is below 256.
pub data Bytes : List ℕ → Type 0 where
  none_left : Bytes []
  one_more : {b : ℕ} {bs : List ℕ} → b < 256 → Bytes bs → Bytes (b ∷ bs)

poke-before :
    (us : List Word) (at : ℕ) (bs : List ℕ) {vs : List Word}
    → Bytes bs
    → poke us at bs ≡ some vs
    → (j : ℕ) → j < at
    → peek vs j ≡ peek us j
unfolding poke
poke-before us at [] none_left h j before = ap (λ x. peek x j) (ground (arith, h))
poke-before us at (b ∷ bs) (one_more small rest) h j before =
    let (w, e, later) = poke-inv us at b bs h in
    poke-before (stored us at b w) (at + 1) bs rest later j (omega (arith, before))
    ∙ peek-stored_other us at j e small (λ s. omega (arith, s, before))

-- The bytes behind what was stored stay.
pub poke-after :
    (us : List Word) (at : ℕ) (bs : List ℕ) {vs : List Word}
    → Bytes bs
    → poke us at bs ≡ some vs
    → (j : ℕ) → at + length bs ≤ j
    → peek vs j ≡ peek us j
unfolding poke
poke-after us at [] none_left h j behind = ap (λ x. peek x j) (ground (arith, h))
poke-after us at (b ∷ bs) (one_more small rest) h j behind =
    let (w, e, later) = poke-inv us at b bs h in
    poke-after (stored us at b w) (at + 1) bs rest later j (omega (arith, behind))
    ∙ peek-stored_other us at j e small (λ s. omega (arith, s, behind))

-- What was stored is read back.
pub peek-poke :
    (us : List Word) (at : ℕ) (bs : List ℕ) {vs : List Word}
    → Bytes bs
    → poke us at bs ≡ some vs
    → (i : ℕ) {b : ℕ} → get_elem? bs i ≡ some b
    → peek vs (at + i) ≡ some b
peek-poke us at [] none_left h i e = absurd (cc)
peek-poke us at (c ∷ bs) {vs} (one_more small rest) h zero {b} e =
    let (w, e', later) = poke-inv us at c bs h in
    let start : at + 0 ≡ at = omega arith in
    ap (λ j. peek vs j) start
    ∙ poke-before (stored us at c w) (at + 1) bs rest later at (omega arith)
    ∙ peek-stored us at e' small
    ∙ e
peek-poke us at (c ∷ bs) {vs} (one_more small rest) h (suc i) {b} e =
    let (w, e', later) = poke-inv us at c bs h in
    let next : at + suc i ≡ at + 1 + i = omega arith in
    ap (λ j. peek vs j) next ∙ peek-poke (stored us at c w) (at + 1) bs rest later i e
