-- ===== src/Cron/Lines.antt =====
-- The lines of the file that `renderCronFile` writes below /etc/cron.d, and the commands in them.
use cloudpanel_gateway.Cron.Render.{CronLine, line_fields}
use cloudpanel_gateway.Base.{
  ℕ, ◌≡◌, refl, false, ◌||◌, List, [], ◌∷◌, ◌++◌, arith, ◌==◌, Bytes, has_byte, join, All,
}

-- No part of a line holds a line end.
abbrev pub IsOneLine : CronLine → Type 0
IsOneLine l = All (λ p. has_byte 10 p ≡ false) (line_fields l)

pub has_byte-append : (c : ℕ) (v w : Bytes) → has_byte c (v ++ w) ≡ (has_byte c v || has_byte c w)
has_byte-append c [] w = refl
has_byte-append c (d ∷ v) w = ground (arith, has_byte-append c v w)

pub has_byte-join :
    (c sep : ℕ) (ps : List Bytes)
    → c == sep ≡ false
    → All (λ p. has_byte c p ≡ false) ps
    → has_byte c (join sep ps) ≡ false
has_byte-join c sep [] h k = refl
has_byte-join c sep (p ∷ []) h (k, ks) = k
has_byte-join c sep (p ∷ q ∷ ps) h (k, ks) =
    ground (arith, has_byte-append c p (sep ∷ join sep (q ∷ ps)), has_byte-join c sep (q ∷ ps) h ks)
