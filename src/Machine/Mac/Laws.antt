-- ===== src/Machine/Mac/Laws.antt =====
-- The MAC address of a machine: its octets, and when two names share an address.
use Prim.Native.Char.{code}
use Prim.Native.String.{count}
use text.Mathlib.TextLemmas.{append_cancel_left, append_inj, append_assoc, length-append}
use cluster_api_provider_nom.Base.{
  ℕ, zero, suc, ◌+◌, ◌*◌, ◌-◌, ◌%◌, ◌<◌, ◌^◌, String, ◌<>◌, ◌≡◌, ◌↔◌, refl, sym, ◌∙◌, ap, Bool,
  true, ◌&&◌, ◌==◌, arith, List, [], ◌∷◌, ltb, if◌then◌else◌,
}
use cluster_api_provider_nom.Base.Format.{hex2, bytes}
use cluster_api_provider_nom.Machine.Mac.{
  fnv32a, hash, mac, Octets, print_octets, get_mac_address, offset32,
}

-- The octets of a hash depend on the hash modulo 211 * 251 * 256, and on nothing less: the three
-- divisors have no common factor.
mac_eq_iff : (g h : ℕ) → (mac g ≡ mac h) ↔ (g % 13558016 ≡ h % 13558016)
unfolding mac
mac_eq_iff g h =
    (λ e. omega (arith, ap Octets.o₄ e, ap Octets.o₅ e, ap Octets.o₆ e), λ e. ground arith)

fnv32a-lt : (bs : List ℕ) (h : ℕ) → h < 2 ^ 32 → fnv32a h bs < 2 ^ 32
unfolding fnv32a
fnv32a-lt [] h p = p
fnv32a-lt (b ∷ bs) h p = fnv32a-lt bs _ (omega arith)

hex_value : ℕ → ℕ
hex_value c = if ltb c b'a' then c - b'0' else c - b'a' + 10

-- The number that two hexadecimal digits print.
read2 : String → ℕ
unfolding hex_value
read2 (String.◌∷◌ c (String.◌∷◌ d String.[])) = hex_value (code c) * 16 + hex_value (code d)
read2 _ = 0

-- A test that every octet passes.
module _ (test : ℕ → Bool) where
  passes_below : ℕ → Bool
  passes_below zero = true
  passes_below (suc bound) = let earlier = passes_below bound in test bound && earlier

  passes_at : (octet bound : ℕ) → octet < bound → passes_below bound ≡ true → test octet ≡ true
  unfolding passes_below
  passes_at octet zero lt all = elim lt [ ]
  passes_at octet (suc bound) lt all = ground (arith, passes_at octet bound)

read2_table : passes_below (λ x. read2 (hex2 x) == x) 256 ≡ true
unfolding passes_below read2 hex2
read2_table = refl

read2-hex2 : (x : ℕ) → x < 256 → read2 (hex2 x) ≡ x
read2-hex2 x h = ground (arith, passes_at (λ x. read2 (hex2 x) == x) x 256 h read2_table)

count_table : passes_below (λ x. count (hex2 x) == 2) 256 ≡ true
unfolding passes_below hex2
count_table = refl

count-hex2 : (x : ℕ) → x < 256 → count (hex2 x) ≡ 2
count-hex2 x h = ground (arith, passes_at (λ x. count (hex2 x) == 2) x 256 h count_table)

-- Two prints that begin with an octet agree in it and in what follows.
hex2_cancel :
    (x y : ℕ) {s t : String} → x < 256 → y < 256 → hex2 x <> s ≡ hex2 y <> t → (x ≡ y) × (s ≡ t)
hex2_cancel x y p q e =
    let (same, rest) = append_inj e (count-hex2 x p ∙ sym (count-hex2 y q)) in
    (sym (read2-hex2 x p) ∙ ap read2 same ∙ read2-hex2 y q, rest)

colon_cancel : {s t : String} → ":" <> s ≡ ":" <> t → s ≡ t
colon_cancel e = append_cancel_left ":" _ _ e

-- The printed address determines the octets.
print_octets-mac_cancel : (g h : ℕ) → print_octets (mac g) ≡ print_octets (mac h) → mac g ≡ mac h
unfolding print_octets mac
print_octets-mac_cancel g h e =
    let (_, e₂) = hex2_cancel 0x52 0x52 (omega arith) (omega arith) e in
    let (_, e₃) = hex2_cancel 0x54 0x54 (omega arith) (omega arith) (colon_cancel e₂) in
    let (_, e₄) = hex2_cancel 0 0 (omega arith) (omega arith) (colon_cancel e₃) in
    let (o₄, e₅) = hex2_cancel (g % 211) (h % 211) (omega arith) (omega arith) (colon_cancel e₄) in
    let (o₅, e₆) = hex2_cancel (g % 251) (h % 251) (omega arith) (omega arith) (colon_cancel e₅) in
    let last = colon_cancel e₆ in
    let o₆ : g % 256 ≡ h % 256 =
      sym (read2-hex2 (g % 256) (omega arith))
      ∙ ap read2 last
      ∙ read2-hex2 (h % 256) (omega arith) in
    ground arith

-- Two machine names are given the same MAC address exactly when their 32-bit hashes agree modulo
-- 13558016, which is 211 * 251 * 256.
pub get_mac_address-eq_iff :
    (a b : String)
    → (get_mac_address a ≡ get_mac_address b) ↔ (hash a % 13558016 ≡ hash b % 13558016)
unfolding get_mac_address
get_mac_address-eq_iff a b = (
  λ e. (mac_eq_iff (hash a) (hash b)).0 (print_octets-mac_cancel (hash a) (hash b) e),
  λ e. ap print_octets ((mac_eq_iff (hash a) (hash b)).1 e),
)

prefix_52 : hex2 0x52 ≡ "52"
unfolding hex2
prefix_52 = refl

prefix_54 : hex2 0x54 ≡ "54"
unfolding hex2
prefix_54 = refl

prefix_00 : hex2 0 ≡ "00"
unfolding hex2
prefix_00 = refl

-- What follows the prefix.
tail_of : ℕ → String
tail_of h = hex2 (h % 211) <> (":" <> (hex2 (h % 251) <> (":" <> hex2 (h % 256))))

count-tail_of : (h : ℕ) → count (tail_of h) ≡ 8
unfolding tail_of
count-tail_of h = simp length-append (
    rw (
      count-hex2 (h % 211) (omega arith),
      count-hex2 (h % 251) (omega arith),
      count-hex2 (h % 256) (omega arith),
    ))

print_octets_prefix : (h : ℕ) → print_octets (mac h) ≡ "52:54:00:" <> tail_of h
unfolding print_octets mac tail_of
print_octets_prefix h = rw (prefix_52, prefix_54, prefix_00) (simp (← append_assoc))

-- A hash has 32 bits, and a MAC address is the prefix 52:54:00 with eight more characters.
pub get_mac_address_shape :
    (name : String)
    → (hash name < 2 ^ 32)
      × (rest : String) × (get_mac_address name ≡ "52:54:00:" <> rest)
      × (count rest ≡ 8)
unfolding hash get_mac_address
get_mac_address_shape name =
    let h = hash name in
    (
      fnv32a-lt (bytes name) offset32 (omega arith),
      tail_of h,
      print_octets_prefix h,
      count-tail_of h,
    )
