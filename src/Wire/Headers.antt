-- ===== src/Wire/Headers.antt =====
-- When the serializers of util/ipv4_header.cc return.
use cs144_minnow.Base.{◌≡◌, refl, Bool, true, false, arith, ◌==◌, if◌then◌else◌}
use cs144_minnow.Base.Outcome.{ok, throws}
use cs144_minnow.Wire.Parser.{Serializer}
use cs144_minnow.Wire.Ipv4.{Ipv4Header, serialize_header}

ok_if {ℓ} :
    {A : Type ℓ} (c : Bool) (x : A) → c ≡ true → (r : A) × ((if c then ok x else throws) ≡ ok r)
ok_if true x h = (x, refl)
ok_if false x h = absurd (ground arith)

pub serialize_header-version4 :
    (h : Ipv4Header) (s : Serializer) → h.ver ≡ 4 → (r : Serializer) × (serialize_header h s ≡ ok r)
unfolding serialize_header
serialize_header-version4 h s v = ok_if (h.ver == 4) _ (ground arith)
