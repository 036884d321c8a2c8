-- ===== src/Names/Plain.antt =====
-- What a domain that `ValidateDomain` accepts cannot hold.
use cloudpanel_gateway.Names.{host_byte}
use cloudpanel_gateway.Base.{ℕ, ◌≡◌, true, false, ltb, ◌==◌}

-- A byte below 128 that the fold leaves alone and no label holds.
abbrev pub IsForeign : ℕ → Type 0
IsForeign c = (ltb c 128 ≡ true) × (host_byte c ≡ false) × (c == b'.' ≡ false)
