-- ===== src/Processor/Examples.antt =====
-- The theorems on handshakes at a node that has one pending transport, and at one whose offer nobody answers.
use rings_node.Base.{ℕ, ◌≡◌, refl, none, some, [], ◌∷◌, ◌++◌}
use rings_node.Error.{ok, err, remote_rpc_error}
use rings_node.Act.{bound}
use rings_node.Swarm.{Swarm}
use rings_node.Swarm.Transports.{get, put, register, new_transport}
use rings_node.Swarm.Pending.{
  find, remove_first, find_pending_transport, pop_pending_transport, push_pending_transport,
}
use rings_node.Node.Samples.{env, Items, World, alone, client, world}
use rings_node.Processor.{Client, accept_answer, create_offer, offered, connect_peer_via_http}
use rings_node.Processor.Handshake.{accept_answer_lem, failed_link_stays_open}

abbrev waiting : Swarm ℕ ℕ Items Items World
waiting = record alone { pending = 0 ∷ [] }

abbrev answered : Swarm ℕ ℕ Items Items World
answered = record alone { transports = (30, 0) ∷ [] }

accepts : accept_answer env "id" "ice" waiting ≡ (ok (30, 0), answered)
unfolding accept_answer bound find find_pending_transport pop_pending_transport register get put
    remove_first
accepts = refl

accept_answer_lem_example :
    (find waiting.pending 0 ≡ some 0)
    × (get answered.transports 30 ≡ some 0)
    × (answered.pending ≡ remove_first waiting.pending 0)
accept_answer_lem_example = accept_answer_lem env "ice" "id" 30 0 waiting answered accepts

abbrev unheard : Client World
unheard = record client { call_answer_offer = λ w url info. (none, w) }

abbrev offering : Swarm ℕ ℕ Items Items World
offering = record alone { pending = 100 ∷ []; world = record world { next_id = 101 } }

offers : create_offer env alone ≡ (ok (100, "info"), offering)
unfolding create_offer bound offered new_transport push_pending_transport
offers = refl

failed_link_stays_open_example :
    (connect_peer_via_http env unheard "url" alone
      ≡ (err remote_rpc_error, record offering { world = offering.world }))
    × (offering.pending ≡ alone.pending ++ 100 ∷ [])
failed_link_stays_open_example =
    failed_link_stays_open env unheard "url" "info" 100 offering.world alone offering offers refl
