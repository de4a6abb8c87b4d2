-- ===== src/Swarm/Examples.antt =====
-- `register` at a node that has a transport for node 20.
use rings_node.Base.{ℕ, ◌≡◌, true, [], ◌∷◌}
use rings_node.Error.{err, invalid_transport}
use rings_node.Swarm.{Swarm}
use rings_node.Swarm.Transports.{register, is_disconnected}
use rings_node.Swarm.Transports.Register.{IsRegistered, register_lem}
use rings_node.Node.Samples.{env, Items, World, alone}

abbrev swarm : Swarm ℕ ℕ Items Items World
swarm = record alone { transports = (20, 7) ∷ [] }

register_lem_example :
    IsRegistered env 20 8 swarm (register env 20 8 swarm)
    × (is_disconnected env 8 swarm ≡ true
        → register env 20 8 swarm ≡ (err invalid_transport, swarm))
register_lem_example = register_lem env 20 8 swarm
