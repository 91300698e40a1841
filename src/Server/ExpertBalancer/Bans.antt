-- ===== src/Server/ExpertBalancer/Bans.antt =====
-- What a ban does, and how a second failure undoes it.
use agora_test.Prelude.{true, false, none, some, ◌≡◌, Text}
use agora_test.Server.ExpertBalancer.{Float, TimedStorage}

-- `TimedStorage` keeps a value until it expires, replaces it by one that expires later, and forgets what is deleted.
pub record IsKept {F V S : Type 0} (float : Float F) (storage : TimedStorage F V S) : Type 0 where
  pub get-store :
      (now until later : F) (k : Text) (v : V) (s : S)
      → storage.get now k s ≡ none
      → float.less until now ≡ false
      → float.less until later ≡ false
      → storage.get later k (storage.store now k v until s) ≡ some (v, until)
  pub get-store_again :
      (now until before later : F) (k : Text) (v w : V) (s : S)
      → storage.get now k s ≡ some (w, before)
      → float.less before until ≡ true
      → float.less until now ≡ false
      → float.less until later ≡ false
      → storage.get later k (storage.store now k v until s) ≡ some (v, until)
  pub get-delete : (now : F) (k : Text) (s : S) → storage.get now k (storage.delete k s) ≡ none
