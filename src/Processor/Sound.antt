-- ===== src/Processor/Sound.antt =====
-- The storage operations of a node keep it sound, and sending leaves its ring as it is.
use rings_node.Base.{ℕ, refl, List, String}
use rings_node.Did.{Did}
use rings_node.VNode.{Encoded}
use rings_node.Act.Keeps.{Keeps, bind-Keeps, map_err-Keeps}
use rings_node.Swarm.{Env}
use rings_node.Swarm.Same.{Same, bind-Same, send_message-Same}
use rings_node.Handler.Sound.{
  Sound, Same-Sound, run_operation-Sound, storage_fetch-Sound as fetch-Sound,
}
use rings_node.Handler.Storage as Storage
use rings_node.Processor.{Client, storage_fetch, storage_append_data, register_service}
use rings_node.Processor.Message.{send_message}
use rings_node.Processor.Same.{map_err-Same}

module _ {K Sk S C W : Type 0} (env : Env K Sk S C W) where
  pub sent-Same : (destination : String) (msg : List ℕ) → Same (send_message env destination msg)
  unfolding send_message
  sent-Same destination msg =
      bind-Same _ _ (λ s. refl)
        λ d.
          bind-Same _ _ (map_err-Same _ _ (λ s. refl))
            λ m. map_err-Same _ _ (send_message-Same env m d)

  module _ (own : Did) where
    pub append-Sound :
        (topic : String) (content : Encoded)
        → Keeps (Sound own) (Storage.storage_append_data env topic content)
    unfolding Storage.storage_append_data
    append-Sound topic content =
        bind-Keeps (Sound own) _ _ (Same-Sound own _ (λ s. refl))
          (λ v. run_operation-Sound env own _)

    pub touch-Sound :
        (topic : String) (content : Encoded)
        → Keeps (Sound own) (Storage.storage_touch_data env topic content)
    unfolding Storage.storage_touch_data
    touch-Sound topic content =
        bind-Keeps (Sound own) _ _ (Same-Sound own _ (λ s. refl))
          (λ v. run_operation-Sound env own _)

    pub subring_join-Sound : (name : String) → Keeps (Sound own) (Storage.subring_join env name)
    unfolding Storage.subring_join
    subring_join-Sound name =
        bind-Keeps (Sound own) _ _ (Same-Sound own _ (λ s. refl))
          (λ v. run_operation-Sound env own _)

    pub storage_fetch-Sound : (vid : Did) → Keeps (Sound own) (storage_fetch env vid)
    unfolding storage_fetch
    storage_fetch-Sound vid = map_err-Keeps (Sound own) _ _ (fetch-Sound env own vid)

    pub storage_append_data-Sound :
        (topic : String) (content : Encoded)
        → Keeps (Sound own) (storage_append_data env topic content)
    unfolding storage_append_data
    storage_append_data-Sound topic content =
        map_err-Keeps (Sound own) _ _ (append-Sound topic content)

    pub register_service-Sound :
        (cl : Client W) (name : String) → Keeps (Sound own) (register_service env cl name)
    unfolding register_service
    register_service-Sound cl name =
        bind-Keeps (Sound own) _ _ (Same-Sound own _ (λ s. refl)) λ mine.
          bind-Keeps (Sound own) _ _ (Same-Sound own _ (map_err-Same _ _ (λ s. refl)))
            λ e. map_err-Keeps (Sound own) _ _ (touch-Sound name e)
