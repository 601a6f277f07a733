-- ===== src/Tests/Vxlan.antt =====
-- Runs of vxlan/main.c: a packet of three bytes.
use dpdk_for_beginners.Base.{ℕ, ◌≡◌, refl, some, List, [], ◌∷◌, ◌++◌, zero, suc}
use dpdk_for_beginners.Vxlan as Vxlan
use dpdk_for_beginners.Vxlan.Roundtrip.{translate-translate}

-- a constant in place of the checksum
abbrev no_cksum : List ℕ → ℕ × ℕ
no_cksum header = (0, 0)

abbrev zeros : ℕ → List ℕ
zeros zero = []
zeros (suc n) = 0 ∷ zeros n

abbrev inner : Vxlan.Mbuf
inner = record { headroom = zeros 60; bytes = 1 ∷ 2 ∷ 3 ∷ []; tailroom = 9 ∷ [] }

abbrev outer : Vxlan.Mbuf
outer = record inner {
  headroom = zeros 10;
  bytes = Vxlan.encap_header no_cksum (0, 0) 3 ++ inner.bytes;
}

translate-translate_example :
    (d : Vxlan.Mbuf) × (Vxlan.translate no_cksum outer ≡ some d) × (d.bytes ≡ inner.bytes)
unfolding Vxlan.translate Vxlan.vxlan_decap Vxlan.vxlan_encap Vxlan.is_vxlan
translate-translate_example = translate-translate no_cksum inner outer refl refl
