-- ===== src/Nft/Steps.antt =====
-- About runs of the nft pallet: its operations in any order (nft/src/lib.rs).
use open_runtime_module_libr.Nft.Kept.{
  destroy_class-IsConsistent, burn-IsConsistent, transfer-IsConsistent,
}
use open_runtime_module_libr.Nft.Made.{mint-IsConsistent, create_class-IsConsistent}
use open_runtime_module_libr.Nft.Consistent.{IsConsistent}
use open_runtime_module_libr.Prelude.{◌≡◌, List, subst, ℕ}
use open_runtime_module_libr.Nft.Calls.{mint, create_class, transfer, burn, destroy_class}
use open_runtime_module_libr.Nft.Types.{State, Config}

module _ {ClassData TokenData : Type 0} (cfg : Config) where
  pub data Step (s t : State ClassData TokenData) : Type 0 where
    by_create_class :
        (owner : ℕ) (metadata : List ℕ) (properties : ClassData)
        → (create_class cfg owner metadata properties s).1 ≡ t
        → Step s t
    by_mint :
        (owner class_id : ℕ) (metadata : List ℕ) (properties : TokenData)
        → (mint cfg owner class_id metadata properties s).1 ≡ t
        → Step s t
    by_transfer :
        (from to class_id token_id : ℕ) → (transfer from to class_id token_id s).1 ≡ t → Step s t
    by_burn : (owner class_id token_id : ℕ) → (burn owner class_id token_id s).1 ≡ t → Step s t
    by_destroy_class : (owner class_id : ℕ) → (destroy_class owner class_id s).1 ≡ t → Step s t

  pub data Reach (s : State ClassData TokenData) : State ClassData TokenData → Type 0 where
    start : Reach s s
    step : {t u : State ClassData TokenData} → Reach s t → Step t u → Reach s u

  Step-IsConsistent : (s t : State ClassData TokenData) → Step s t → IsConsistent s → IsConsistent t
  Step-IsConsistent s t (by_create_class owner metadata properties e) k =
      subst IsConsistent e (create_class-IsConsistent cfg owner metadata properties s k)
  Step-IsConsistent s t (by_mint owner class_id metadata properties e) k =
      subst IsConsistent e (mint-IsConsistent cfg owner class_id metadata properties s k)
  Step-IsConsistent s t (by_transfer from to class_id token_id e) k =
      subst IsConsistent e (transfer-IsConsistent from to class_id token_id s k)
  Step-IsConsistent s t (by_burn owner class_id token_id e) k =
      subst IsConsistent e (burn-IsConsistent owner class_id token_id s k)
  Step-IsConsistent s t (by_destroy_class owner class_id e) k =
      subst IsConsistent e (destroy_class-IsConsistent owner class_id s k)

  -- If in a state the index lists exactly the owners of the stored tokens, the issuance of every
  -- class is the number of its stored tokens, and next ids are above those in use, then this is so
  -- in every state that creating and destroying classes, minting, transferring and burning lead to,
  -- whether the operations succeed or not.
  pub Reach-IsConsistent :
      (s t : State ClassData TokenData) → IsConsistent s → Reach s t → IsConsistent t
  Reach-IsConsistent s t k start = k
  Reach-IsConsistent s u k (step {t} r n) = Step-IsConsistent t u n (Reach-IsConsistent s t k r)
