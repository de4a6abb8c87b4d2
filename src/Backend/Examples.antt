-- ===== src/Backend/Examples.antt =====
-- The theorem on custom messages at a text, and what becomes of its extra bytes.
use rings_node.Base.{◌≡◌, refl, some, arith, [], ◌∷◌, replicate}
use rings_node.Error.{ok}
use rings_node.Backend.{BackendMessage, of_slice, to_vec, zeros}
use rings_node.Backend.Service.{read_custom}
use rings_node.Backend.Framing.{read_custom-framed}
use rings_node.Processor.Message.{framed}

abbrev marked : BackendMessage
marked = record { message_type = 300; extra = replicate 30 5; body = 104 ∷ 105 ∷ [] }

lost_test : of_slice (to_vec marked) ≡ ok (record marked { extra = zeros 30 })
unfolding of_slice to_vec
lost_test = refl

read_custom-framed_example :
    read_custom (framed (to_vec marked)) ≡ ok (some (record marked { extra = zeros 30 }))
read_custom-framed_example = read_custom-framed marked refl (omega arith)
