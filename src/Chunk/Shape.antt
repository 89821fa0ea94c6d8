-- ===== src/Chunk/Shape.antt =====
-- Lua/include/lobject.h: prototypes that fit their types, and what stripping leaves of them.
use addons_terraria_tshock.Common.{
  ℕ, suc, ◌^◌, ◌<◌, max, Bool, false, ◌≡◌, refl, ap, none, [], map, length, All,
}
use mathlib.Core.Path.{ap₂}
use addons_terraria_tshock.Chunk.{Body, Proto, Protos, proto, last, ◌then◌, sizep}
use addons_terraria_tshock.Chunk.Dump.{unless_strip}
use addons_terraria_tshock.Chunk.Fits.{IsNat, IsSize, IsConstant}
use addons_terraria_tshock.Chunk.Debug.{unnamed, IsDebug}

-- A function whose fields fit their types, and whose vectors the interpreter can allocate.
abbrev pub IsBody : Body → Type 0
IsBody f =
    IsNat f.linedefined
    × IsNat f.lastlinedefined
    × (f.numparams < 2 ^ 8)
    × (f.is_vararg < 2 ^ 8)
    × (f.maxstacksize < 2 ^ 8)
    × All (λ (x : ℕ). x < 2 ^ 32) f.code
    × IsSize 4 (length f.code)
    × All IsConstant f.k
    × IsSize 8 (length f.k)
    × IsDebug f

unfoldable mutual
  pub IsProto : Proto → Type 0
  IsProto (proto f p) = IsBody f × IsSize 4 (sizep p) × AreProtos p

  pub AreProtos : Protos → Type 0
  AreProtos last = Unit
  AreProtos (f then fs) = IsProto f × AreProtos fs

-- How deep functions stand in functions.
unfoldable mutual
  pub depth : Proto → ℕ
  depth (proto f p) = suc (depths p)

  pub depths : Protos → ℕ
  depths last = 0
  depths (f then fs) = max (depth f) (depths fs)

-- What `strip` leaves of a function.
abbrev pub stripped_body : Bool → Body → Body
stripped_body strip f = record f {
  source = unless_strip strip none f.source;
  lineinfo = unless_strip strip [] f.lineinfo;
  locvars = unless_strip strip [] f.locvars;
  upvalues = unless_strip strip (map unnamed f.upvalues) f.upvalues;
}

unfoldable mutual
  pub stripped : Bool → Proto → Proto
  stripped strip (proto f p) = proto (stripped_body strip f) (all_stripped strip p)

  pub all_stripped : Bool → Protos → Protos
  all_stripped strip last = last
  all_stripped strip (f then fs) = stripped strip f then all_stripped strip fs

mutual
  unfolding stripped

  -- Without `strip` a function stays as it is.
  pub stripped-false : (f : Proto) → stripped false f ≡ f
  stripped-false (proto f p) = ap (proto f) (all_stripped-false p)

  all_stripped-false : (p : Protos) → all_stripped false p ≡ p
  all_stripped-false last = refl
  all_stripped-false (f then fs) = ap₂ ◌then◌ (stripped-false f) (all_stripped-false fs)
