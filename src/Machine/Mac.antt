-- ===== src/Machine/Mac.antt =====
-- `hash` and `getMacAddress` of pkg/nomad/machine/machine.go. The hash is hash/fnv's New32a: 32
-- bits, each byte is xor-ed in and then the sum is multiplied by the prime, modulo 2 ^ 32.
pub mod Laws
use Prim.Native.Nat.{bit_xor}
use cluster_api_provider_nom.Base.{ℕ, ◌*◌, ◌%◌, ◌^◌, String, ◌<>◌, List, [], ◌∷◌}
use cluster_api_provider_nom.Base.Format.{hex2, bytes}

abbrev pub offset32 : ℕ
offset32 = 2166136261

abbrev pub prime32 : ℕ
prime32 = 16777619

unfoldable pub fnv32a : ℕ → List ℕ → ℕ
fnv32a h [] = h
fnv32a h (b ∷ bs) = fnv32a (bit_xor h b * prime32 % 2 ^ 32) bs

unfoldable pub hash : String → ℕ
unfolding fnv32a bytes
hash s = fnv32a offset32 (bytes s)

-- The six octets that are printed.
pub record Octets : Type 0 where
  pub o₁ : ℕ
  pub o₂ : ℕ
  pub o₃ : ℕ
  pub o₄ : ℕ
  pub o₅ : ℕ
  pub o₆ : ℕ

unfoldable pub mac : ℕ → Octets
mac h = record { o₁ = 0x52; o₂ = 0x54; o₃ = 0x0; o₄ = h % 211; o₅ = h % 251; o₆ = h % 256 }

-- The format "%02x:%02x:%02x:%02x:%02x:%02x".
unfoldable pub print_octets : Octets → String
unfolding hex2
print_octets m =
    hex2 m.o₁
    <> (":"
        <> (hex2 m.o₂
            <> (":"
                <> (hex2 m.o₃
                    <> (":" <> (hex2 m.o₄ <> (":" <> (hex2 m.o₅ <> (":" <> hex2 m.o₆)))))))))

unfoldable pub get_mac_address : String → String
unfolding hash mac print_octets
get_mac_address name = print_octets (mac (hash name))
