-- ===== src/Rpc/Examples.antt =====
-- The theorem on signed requests at a request for an offer, where parameters are texts.
use rings_node.Base.{◌≡◌, true, false, []}
use rings_node.Error.{err, no_permission}
use rings_node.Node.Samples.{env, alone, client, json}
use rings_node.Rpc.{handle}
use rings_node.Rpc.Names as Names
use rings_node.Rpc.Auth.{is_open, handle-auth}

handle-auth_example :
    (is_open Names.create_offer ≡ false
      → handle env client json false Names.create_offer [] alone ≡ (err no_permission, alone))
    × (is_open Names.create_offer ≡ true
        → handle env client json false Names.create_offer [] alone
          ≡ handle env client json true Names.create_offer [] alone)
handle-auth_example = handle-auth env client json Names.create_offer [] alone
