-- ===== src/Live/Ledger/Stamp.antt =====
-- The first stamp of a ledger is the one that counts.
use vm_quant_trader.Prelude.{◌≡◌, some, [], arith, if◌then◌else◌}
use vm_quant_trader.Errors.{ok, err, ledger_identity_conflict}
use vm_quant_trader.Floats.{Floats}
use vm_quant_trader.Live.Ledger.{OrderLedger, Identity, same_identity, get_identity, stamp_identity}

module _ {F : Floats} where
  -- A ledger with no identity takes the first one that it is stamped with. Every later stamp leaves
  -- it as it is: the same identity is accepted, and any other raises.
  pub stamp_identity_twice :
      (i j : Identity) (l : OrderLedger F)
      → l.meta ≡ []
      → let (r, l') = stamp_identity i l in
        (r ≡ ok tt)
        × (get_identity l' ≡ some i)
        × (stamp_identity j l'
            ≡ ((if same_identity i j then ok tt else err ledger_identity_conflict), l'))
  unfolding stamp_identity get_identity
  stamp_identity_twice i j l e = ground (arith, e)
