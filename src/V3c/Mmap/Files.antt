-- ===== src/V3c/Mmap/Files.antt =====
-- Where `mmap_v3c_file` files the units that it finds.
use rtp_benchmarks.Common.{ℕ, ◌≡◌, Bool, true, All}
use rtp_benchmarks.V3c.Types.{
  V3cUnitInfo, V3cFileMap, v3c_vps, v3c_ad, v3c_ovd, v3c_gvd, v3c_avd, v3c_pvd, v3c_cad,
}
use rtp_benchmarks.V3c.Mmap.{Scan, done, invalid}

-- A unit of the type, as the parser leaves it: nothing received for it yet.
abbrev pub IsMapped : ℕ → V3cUnitInfo → Type 0
IsMapped t u = u.header.vuh_unit_type ≡ t

-- Each list of the map holds units of its own type.
pub record IsFiled (m : V3cFileMap) : Type 0 where
  pub vps : All (IsMapped v3c_vps) m.vps_units
  pub ad : All (IsMapped v3c_ad) m.ad_units
  pub ovd : All (IsMapped v3c_ovd) m.ovd_units
  pub gvd : All (IsMapped v3c_gvd) m.gvd_units
  pub avd : All (IsMapped v3c_avd) m.avd_units
  pub pvd : All (IsMapped v3c_pvd) m.pvd_units
  pub cad : All (IsMapped v3c_cad) m.cad_units

-- The property of what a step of the parser comes to.
abbrev IsFiledScan : Scan V3cFileMap → Type 0
IsFiledScan (done m) = IsFiled m
IsFiledScan invalid = Unit {0}

-- What the whole function ensures of its answer and of the map.
abbrev pub IsAnswer : Bool × V3cFileMap → Type 0
IsAnswer (b, m) = (b ≡ true) × IsFiled m
