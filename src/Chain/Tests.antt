-- ===== src/Chain/Tests.antt =====
-- The buffers' claim at concrete chains.
use hcore.Base.{ℕ, ◌==◌, none, [], ◌∷◌, if◌then◌else◌, arith, refl}
use hcore.Chain.{Chain, Chains, free_chain, free_chain_hold_buf}
use hcore.Chain.Free.{GivesNext, alloc_chain-free_chain}

abbrev memory : ℕ → Chain
memory a =
    if a == 8
    then record { buf = 5; next = 0; free = 0; user_data = 0 }
    else record { buf = 6; next = 3; free = 0; user_data = 7 }

-- The chain at 8 is free.
abbrev free_eight : Chains
free_eight = record {
  pool = record {
    blocks = (record { base = 4096; last = 4216; end = 5120; failed = 0 }) ∷ [];
    current = 0;
    max = 904;
    large = [];
    cleanup = [];
  };
  chain = 8;
  at = memory;
}

abbrev no_call : ℕ → ℕ → Chains → Chains
no_call handler cl s = s

alloc_chain-free_chain_example :
    GivesNext none none
      (free_chain_hold_buf no_call free_eight 3)
      3
      (8 ∷ [])
      (record { buf = 6; next = 0; free = 0; user_data = 7 })
    × GivesNext none none
        (free_chain no_call free_eight 3)
        3
        (8 ∷ [])
        (record { buf = 0; next = 0; free = 0; user_data = 7 })
alloc_chain-free_chain_example =
    alloc_chain-free_chain no_call none none free_eight 3 (8 ∷ []) (refl, ground arith, tt, refl)
      (ground arith) (ground arith, tt) refl
