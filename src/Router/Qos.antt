-- ===== src/Router/Qos.antt =====
-- `min_qos` of src/router.rs.
use iotd.Prelude.{ℕ, ◌≡◌, refl, leb, min, arith, ◌==◌, nat_eq, if◌then◌else◌}
use iotd.Protocol.Packet.{QoS, qos_as_u8, at_most_once, at_least_once, exactly_once}

abbrev pub max_supported_qos : ℕ
max_supported_qos = 2

unfoldable pub min_qos : QoS → QoS → QoS
min_qos a b =
    let min_val = min (qos_as_u8 a) (qos_as_u8 b) in
    let capped = min min_val max_supported_qos in
    if capped == 0
    then at_most_once
    else if capped == 1
    then at_least_once
    else if capped == 2
    then exactly_once
    else exactly_once

-- The effective QoS is the smaller of the two.
pub qos_as_u8-min_qos : (a b : QoS) → qos_as_u8 (min_qos a b) ≡ min (qos_as_u8 a) (qos_as_u8 b)
unfolding min_qos
qos_as_u8-min_qos a b = ground arith

-- The one of two QoS whose number is not greater.
abbrev pub smaller : QoS → QoS → QoS
smaller a b = if leb (qos_as_u8 a) (qos_as_u8 b) then a else b

pub min_qos-smaller : (a b : QoS) → min_qos a b ≡ smaller a b
unfolding min_qos
min_qos-smaller QoS.at_most_once QoS.at_most_once = refl
min_qos-smaller QoS.at_most_once QoS.at_least_once = refl
min_qos-smaller QoS.at_most_once QoS.exactly_once = refl
min_qos-smaller QoS.at_least_once QoS.at_most_once = refl
min_qos-smaller QoS.at_least_once QoS.at_least_once = refl
min_qos-smaller QoS.at_least_once QoS.exactly_once = refl
min_qos-smaller QoS.exactly_once QoS.at_most_once = refl
min_qos-smaller QoS.exactly_once QoS.at_least_once = refl
min_qos-smaller QoS.exactly_once QoS.exactly_once = refl
