-- ===== src/Tests/Tokens.antt =====
-- API tokens at concrete inputs.
use goravel_authkit.Base.{ℕ, ◌≡◌, ◌≢◌, ◌≤◌, refl, true, List, [], ◌∷◌, ◌++◌, none, some, arith}
use goravel_authkit.Text.{Str, lit, str_eq, mem_str}
use goravel_authkit.Models.{ApiToken}
use goravel_authkit.Store.{Tables, done, tables_of}
use goravel_authkit.Store.Laws.{Ensures}
use goravel_authkit.Text.{trim_space, is_space, trim_left}
use goravel_authkit.Text.Base64.{encode, char_of}
use goravel_authkit.Tests.Sample.{sample, ann, tables, db}
use goravel_authkit.Services.ApiTokens.{
  Config, IssueCommand, Draws, issue, store_token, resolve, revoke_all, trimmed_scopes,
}
use goravel_authkit.Services.ApiTokens.Limit.{live, issue-limit}
use goravel_authkit.Services.ApiTokens.Revocation.{revoke_all-resolve}
use goravel_authkit.Services.ApiTokens.RoundTrip.{store_token-resolve}
use goravel_authkit.Services.ApiTokens.Scopes.{
  validate_scopes, matches_scope_pattern, collect_scopes, sort_strings, insert_str, str_le,
  is_alphanumeric, all_scope_runes, is_scope_rune,
}
use goravel_authkit.Services.ApiTokens.ScopeOrder.{StrictlySorted}
use goravel_authkit.Services.ApiTokens.ScopeLaws.{Acceptable, validate_scopes-exact}

abbrev allowed : List Str
allowed = lit "read" ∷ lit "write" ∷ []

abbrev settings : Config
settings = record {
  allowed_scopes = allowed;
  max_lifetime = 1000;
  max_per_user = 2;
  two_factor = true;
  delegation_guard = lit "";
  delegation_actors = [];
}

abbrev command : IssueCommand
command = record {
  user_id = 1;
  name = lit "ci";
  expires_at = 900;
  scopes = lit "read" ∷ [];
  password = lit "old secret";
  two_factor_code = lit "123456";
}

abbrev twelve : List ℕ
twelve = 1 ∷ 2 ∷ 3 ∷ 4 ∷ 5 ∷ 6 ∷ 7 ∷ 8 ∷ 9 ∷ 10 ∷ 11 ∷ 12 ∷ []

abbrev draws : Draws
draws = record {
  id = 2;
  now = 50;
  verify_now = 51;
  selector_bytes = some twelve;
  validator_bytes = some (twelve ++ (twelve ++ (1 ∷ 2 ∷ 3 ∷ 4 ∷ 5 ∷ 6 ∷ 7 ∷ 8 ∷ [])));
}

abbrev messy : List Str
messy = lit "write" ∷ lit " read" ∷ lit "write" ∷ []

validate_scopes-exact_example :
    StrictlySorted allowed
    × ((t : Str) → mem_str allowed t ≡ mem_str (trimmed_scopes messy) t)
    × Acceptable allowed (trimmed_scopes messy)
unfolding validate_scopes matches_scope_pattern collect_scopes sort_strings insert_str str_le
    is_alphanumeric all_scope_runes is_scope_rune mem_str str_eq trim_space trim_left is_space
validate_scopes-exact_example = validate_scopes-exact allowed messy allowed refl

issue-limit_example :
    live 1 50 (tables_of (issue sample settings draws command none db)).api_tokens ≤ 2
issue-limit_example = issue-limit sample settings 1 draws command none db (omega arith)

revoke_all-resolve_example :
    (after : Tables) × (revoke_all 1 50 (record { tables = tables; faults = [] })
      ≡ done tt (record { tables = after; faults = [] }))
    × Ensures
        (λ (token : ApiToken) _. token.user_id ≢ 1)
        (λ t. t ≡ after)
        (resolve sample settings (lit "gak_sel.v") 60 61 (record { tables = after; faults = [] }))
revoke_all-resolve_example = revoke_all-resolve sample settings 1 50 60 61 (lit "gak_sel.v") tables

abbrev long : List ℕ
long = twelve ++ (twelve ++ (1 ∷ 2 ∷ 3 ∷ 4 ∷ 5 ∷ 6 ∷ 7 ∷ 8 ∷ []))

store_token-resolve_example :
    (token : ApiToken) × (plaintext : Str) × (stored : Tables) × (last : Tables) × (store_token
        sample settings ann command
        (lit "read" ∷ [])
        (record {
          id = 2;
          now = 50;
          verify_now = 51;
          selector_bytes = some twelve;
          validator_bytes = some long;
        })
        (record { tables = tables; faults = [] })
      ≡ done (token, plaintext) (record { tables = stored; faults = [] }))
    × (resolve sample settings plaintext 60 61 (record { tables = stored; faults = [] })
        ≡ done (record token { last_used_at = some 61 }) (record { tables = last; faults = [] }))
    × (token.user_id ≡ 1)
    × (token.scopes ≡ lit "read" ∷ [])
unfolding encode char_of str_eq
store_token-resolve_example =
    store_token-resolve sample settings ann command (lit "read" ∷ []) 2 50 51 60 61 twelve long
      tables refl
      (
        omega arith,
        (
          omega arith,
          (
            omega arith,
            (
              omega arith,
              (
                omega arith,
                (
                  omega arith,
                  (
                    omega arith,
                    (omega arith, (omega arith, (omega arith, (omega arith, (omega arith, tt))))),
                  ),
                ),
              ),
            ),
          ),
        ),
      )
      (
        omega arith,
        (
          omega arith,
          (
            omega arith,
            (
              omega arith,
              (
                omega arith,
                (
                  omega arith,
                  (
                    omega arith,
                    (
                      omega arith,
                      (
                        omega arith,
                        (
                          omega arith,
                          (
                            omega arith,
                            (
                              omega arith,
                              (
                                omega arith,
                                (
                                  omega arith,
                                  (
                                    omega arith,
                                    (
                                      omega arith,
                                      (
                                        omega arith,
                                        (
                                          omega arith,
                                          (
                                            omega arith,
                                            (
                                              omega arith,
                                              (
                                                omega arith,
                                                (
                                                  omega arith,
                                                  (
                                                    omega arith,
                                                    (
                                                      omega arith,
                                                      (
                                                        omega arith,
                                                        (
                                                          omega arith,
                                                          (
                                                            omega arith,
                                                            (
                                                            omega arith,
                                                            (
                                                            omega arith,
                                                            (
                                                            omega arith,
                                                            (omega arith, (omega arith, tt)),
                                                            ),
                                                            ),
                                                            ),
                                                          ),
                                                        ),
                                                      ),
                                                    ),
                                                  ),
                                                ),
                                              ),
                                            ),
                                          ),
                                        ),
                                      ),
                                    ),
                                  ),
                                ),
                              ),
                            ),
                          ),
                        ),
                      ),
                    ),
                  ),
                ),
              ),
            ),
          ),
        ),
      )
      refl refl (λ e. omega arith) (refl, tt) (omega arith)
