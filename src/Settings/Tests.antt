-- ===== src/Settings/Tests.antt =====
-- A run of a change that the database does not commit.
use cloudpanel_gateway.Settings.{MutateFaults, SiteState, replaced}
unfoldable use cloudpanel_gateway.Settings.{mutate_site, mutate_vhost, mutate_patched, commit_vhost}
use cloudpanel_gateway.Settings.Rollback.{IsAtomic, mutate_site-IsAtomic}
use cloudpanel_gateway.Base.{
  ℕ, ◌+◌, ◌≡◌, refl, none, some, [], ◌∷◌, ◌++◌, Bytes, codes, Result, ok, err,
}

abbrev tx_fails : MutateFaults
tx_fails = record {
  begin = none;
  commit = none;
  tx_commit = some "database is locked";
  rollback = none;
}

abbrev site : SiteState ℕ
site = record { db = 1; vhost = some (codes "server { }") }

abbrev next_db : ℕ → Result ℕ
next_db n = ok (n + 1)

abbrev add_line : Bytes → Result Bytes
add_line b = ok (b ++ 10 ∷ [])

mutate_site-IsAtomic_example :
    IsAtomic next_db add_line site (mutate_site tx_fails next_db add_line site)
mutate_site-IsAtomic_example = mutate_site-IsAtomic tx_fails next_db add_line site refl tt

-- The answer of the commit is lost after the vhost was replaced: the database keeps its state, and
-- the vhost has the new text.
abbrev answer_lost : MutateFaults
answer_lost = record tx_fails {
  commit = some (replaced "unexpected EOF" (codes "server { }" ++ 10 ∷ []));
  tx_commit = none;
}

answer_lost_test :
    mutate_site answer_lost next_db add_line site
    ≡ (err "unexpected EOF", record site { vhost = some (codes "server { }" ++ 10 ∷ []) })
unfolding mutate_site mutate_vhost mutate_patched commit_vhost
answer_lost_test = refl
