-- ===== src/Config/ChildDaos.antt =====
-- ethereum/child_dao_list.py: the accounts that the fork of the DAO empties.
use shopper.Prelude.{ℕ, zero, suc, ◌+◌, List, [], ◌∷◌, ◌++◌, map}

-- `source`
abbrev pub source : ℕ
source = 0x4a574510c7014e4ae985403536074abe582adfc8

-- `range(from, from + count)`
abbrev range : ℕ → ℕ → List ℕ
range zero from = []
range (suc count) from = from ∷ range count (from + 1)

-- `L`. The address of a contract, by its maker and the maker's nonce, is a hash: an argument.
abbrev pub child_dao_addresses : (ℕ → ℕ → ℕ) → List ℕ
child_dao_addresses mk_contract_address =
    0xbb9bc244d798123fde783fcc1c72d3bb8c189413
      ∷ 0x807640a13483f8ac783c557fcdf27be11ea4ac7a
      ∷ map (λ i. mk_contract_address source i) (range 57 1)
    ++ map (λ i. mk_contract_address (mk_contract_address source i) 0) (range 57 1)
