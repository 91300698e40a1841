-- ===== src/Server/W2wLocalRouter/Lasting.antt =====
-- What a storage keeps, and when an expert or a member is there.
use agora_test.Prelude.{List, [], ◌∷◌, false, none, some, ◌≡◌, ◌⊎◌, Text, lookup}
use agora_test.Server.ExpertBalancer.{TimedStorage, Float, Env, Entry, Member, Balancer}
use agora_test.Server.ExpertBalancer.Heap.{dec_uid}

-- `TimedStorage` has a value that it was given before its expiration, keeps the others, and gains none by a deletion.
pub record IsLasting {F V S : Type 0} (float : Float F) (storage : TimedStorage F V S)
    : Type 0 where
  pub get-store :
      (now until : F) (k : Text) (v : V) (s : S)
      → float.less until now ≡ false
      → (w : V × F) × (storage.get now k (storage.store now k v until s) ≡ some w)
  pub get-store_kept :
      (now until : F) (j k : Text) (v : V) (w : V × F) (s : S)
      → storage.get now j s ≡ some w
      → (w' : V × F) × (storage.get now j (storage.store now k v until s) ≡ some w')
  pub get-delete_none :
      (now : F) (j k : Text) (s : S)
      → storage.get now j s ≡ none
      → storage.get now j (storage.delete k s) ≡ none

module _ {F M X B : Type 0} (env : Env F M X B) (now : F) where
  -- The expert is present and queued.
  abbrev pub IsThere : Text → Balancer F M X B → Type 0
  IsThere uid s =
      ((e : Entry F) × (lookup dec_uid uid s.uid_to_queue ≡ some e))
      × ((found : Text × F) × (env.storage.get now uid s.experts ≡ some found))

module _ {F : Type 0} where
  abbrev pub IsMember : Member F → List (Member F) → Type 0
  IsMember m [] = ⊥
  IsMember m (x ∷ members) = (x ≡ m) ⊎ IsMember m members
