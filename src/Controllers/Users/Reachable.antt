-- ===== src/Controllers/Users/Reachable.antt =====
-- http/controllers/users.go: proofs about sequences of requests to the administration of accounts.
use goravel_authkit.Base.{List, Option}
use goravel_authkit.Text.{Str}
use goravel_authkit.External.{External}
use goravel_authkit.Store.{Db}
use goravel_authkit.Http.{Context, Platform, Request, Ran, ran, W}
use goravel_authkit.Http.Rules.{Gives}
use goravel_authkit.Responses.{Answer, CreateUserRequest, UpdateUserRequest}
use goravel_authkit.Services.Users.Standing.{Standing}
use goravel_authkit.Controllers.Users.Kept.{
  IsFresh, index-KeepsSafe, show-KeepsSafe, store-Safe, update-KeepsSafe, destroy-KeepsSafe,
  reset-KeepsSafe,
}
use goravel_authkit.Controllers.Users.{
  UsersController, UserDraws, index, show, store, update, destroy, set_password,
}

pub data UserRequest : Type 0 where
  list_users : UserRequest
  show_user : (id : Str) → UserRequest
  create_user : Option CreateUserRequest → UserRequest
  update_user : (id : Str) → Option UpdateUserRequest → UserRequest
  delete_user : (id : Str) → UserRequest
  reset_password : (id : Str) → (password : Option Str) → UserRequest

module _ {S : Type 0} (ext : External) (p : Platform S) (uc : UsersController) where
  abbrev pub serve : UserRequest → Request → UserDraws → W S Answer
  serve list_users req d = index ext p uc
  serve (show_user id) req d = show ext p uc id
  serve (create_user body) req d = store ext p uc body req d
  serve (update_user id body) req d = update ext p uc id body req d
  serve (delete_user id) req d = destroy ext p uc id req d
  serve (reset_password id password) req d = set_password ext p uc id password req d

  abbrev pub served : Ran S Answer → Context S
  served (ran a c) = c

  -- Any requests, of any users, while database calls fail or not.
  pub data Reachable (db : Db) : Db → Type 0 where
    here : Reachable db db
    next :
        (r : UserRequest) (req : Request) (d : UserDraws) (faults : List (Option Str))
        (c : Context S)
        → Reachable db c.db
        → IsFresh ext p uc d c.db
        → Reachable db (record { tables = (served (serve r req d c)).db.tables; faults = faults })

  serve-Safe :
      (r : UserRequest) (req : Request) (d : UserDraws) (c : Context S)
      → IsFresh ext p uc d c.db
      → Standing uc.users c.db.tables
      → Gives (λ _ c'. Standing uc.users c'.db.tables) (serve r req d c)
  serve-Safe list_users req d c fresh h = index-KeepsSafe ext p uc c h
  serve-Safe (show_user id) req d c fresh h = show-KeepsSafe ext p uc id c h
  serve-Safe (create_user body) req d c fresh h = store-Safe ext p uc body req d c fresh h
  serve-Safe (update_user id body) req d c fresh h = update-KeepsSafe ext p uc id body req d c h
  serve-Safe (delete_user id) req d c fresh h = destroy-KeepsSafe ext p uc id req d c h
  serve-Safe (reset_password id password) req d c fresh h =
      reset-KeepsSafe ext p uc id password req d c h

  served-Safe :
      (r : Ran S Answer)
      → Gives (λ _ c'. Standing uc.users c'.db.tables) r
      → Standing uc.users (served r).db.tables
  served-Safe (ran a c) h = h.gives

  -- If the accounts are well-formed and some administrator is active, both hold after any
  -- sequence of requests to the administration of accounts, by anybody and however each of them
  -- ends, provided that the ids that are drawn are new.
  pub Reachable-Standing :
      (db last : Db)
      → Standing uc.users db.tables
      → Reachable db last
      → Standing uc.users last.tables
  Reachable-Standing db last h here = h
  Reachable-Standing db last h (next r req d faults c before fresh) =
      served-Safe (serve r req d c)
        (serve-Safe r req d c fresh (Reachable-Standing db c.db h before))
