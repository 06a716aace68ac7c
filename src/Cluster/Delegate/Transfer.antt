-- ===== src/Cluster/Delegate/Transfer.antt =====
-- Missing messages, from the store of one node to the store of another.
use guble.Prelude.{
  ℕ, ℕ_comparable, ◌<◌, ◌≤◌, ◌≡◌, refl, ap, sym, ◌∙◌, Bytes, bytes_comparable, ≟-refl, find, put,
  find-put, List, [], ◌∷◌, ◌++◌, append_assoc, append-nil, none, some, Bool, true, false, leb, All,
  arith,
}
use guble.Protocol.Message.{Json}
use guble.Cluster.Codec.{sync_message, ClusterMessage, SyncMessageRequest, SyncMessage, IsFaithful}
use guble.Cluster.Members.{
  Config, new_message, new_encoder_message, get_node_by_id, Sending, sent, not_sent, to_member,
  send_message_to_node, send_message_to_node_id,
}
use guble.Cluster.Synchronizer.{
  MessageStore, SyncPartition, Synchronizer, in_sync_id, enqueue, receive_sync_message, process_one,
  process_loop, request_for, send_one, send_fetched, request_loop,
}
use guble.Cluster.Delegate.{
  Effect, dropped, routed, synchronized, answered, sync_received, dispatch, notify_decoded,
  notify_msg,
}

-- The messages of a partition as they are sent.
unfoldable pub sync_messages : Bytes → List (ℕ × Bytes) → List SyncMessage
sync_messages name [] = []
sync_messages name ((id, message) ∷ fetched) =
    record { partition = name; id = id; message = message } ∷ sync_messages name fetched

module _ (S : MessageStore) where
  -- A store after Store was called for each message, in their order, whatever it gave.
  unfoldable pub store_each : Bytes → List (ℕ × Bytes) → S.State → S.State
  store_each name [] st = st
  store_each name ((id, message) ∷ fetched) st =
      store_each name fetched (S.store name id message st).1

  -- The loop ends at the message that reaches the largest id, and has stored all up to it.
  pub process_loop-stores :
      (name : Bytes) (max : ℕ) (front : List (ℕ × Bytes)) (final : ℕ) (message : Bytes)
      (sp : SyncPartition) (st : S.State)
      → All (λ m. m.0 < max) front
      → max ≤ final
      → process_loop S name max (sync_messages name (front ++ ((final, message) ∷ []))) (sp, st) ≡ (
        true,
        (
          [],
          (record sp { last_id = final }, store_each name (front ++ ((final, message) ∷ [])) st),
        ),
      )
  unfolding process_loop process_one sync_messages store_each
  process_loop-stores name max [] final message sp st a h = rw (reached) refl
    where
      reached : leb max final ≡ true
      reached = ground arith
  process_loop-stores name max ((id, m) ∷ front) final message sp st a h = rw below (
      process_loop-stores name max front final message (record sp { last_id = id })
        (S.store name id m st).1 a.1 h)
    where
      below : leb max id ≡ false
      below = ground (arith, a.0)

  module _ (json : Json) (there : Config) (members : List Bytes)
      (sends : Bytes → Bytes → Bool) where
    abbrev pub state_after : Effect S → Synchronizer S → Synchronizer S
    state_after dropped s = s
    state_after (routed m) s = s
    state_after (synchronized e t) s = t
    state_after (answered out) s = s

    -- The node gets, in order, what was sent.
    unfoldable pub deliver : List Sending → Synchronizer S → Synchronizer S
    deliver [] s = s
    deliver (sent node data' ∷ out) s =
        deliver out (state_after (notify_msg S json there members sends data' s) s)
    deliver (not_sent e ∷ out) s = deliver out s

    -- A node with the same codec.
    abbrev pub from : ℕ → Config
    from id = record { id = id; codec = there.codec }

    module _ (here : Config) (F : IsFaithful there.codec) where
      -- One message: if it could be encoded for sending, it is put into the channel.
      notified :
          (sm : SyncMessage) (body data' : Bytes) (sp : SyncPartition) (s : Synchronizer S)
          → there.codec.encode_sync sm ≡ some body
          → there.codec.encode_message (new_message here sync_message body) ≡ some data'
          → in_sync_id S here.id s ≡ true
          → find s.sync_partitions sm.partition ≡ some sp
          → notify_msg S json there members sends data' s
            ≡ synchronized none (enqueue S sm (some sp) s).1
      unfolding notify_msg notify_decoded dispatch sync_received receive_sync_message
      notified sm body data' sp s e x i f =
          ap (λ d. notify_decoded S json there members sends d s)
            (F.decode-encode_message (new_message here sync_message body) data' x)
          ∙ rw (i, F.decode-encode_sync sm body e, f) refl

      module _
          (encodes : (m : ClusterMessage) → (b : Bytes) × (there.codec.encode_message m ≡ some b))
          (encodes_sync : (m : SyncMessage) → (b : Bytes) × (there.codec.encode_sync m ≡ some b))
          (known : List Bytes) (reaches : Bytes → Bytes → Bool) (node : Bytes)
          (is_known : get_node_by_id there.id known ≡ some node)
          (arrives : (d : Bytes) → reaches node d ≡ true) where
        body_of : SyncMessage → Bytes
        body_of sm = (encodes_sync sm).0

        data_of : SyncMessage → Bytes
        data_of sm = (encodes (new_message (from here.id) sync_message (body_of sm))).0

        send_one-sent :
            (sm : SyncMessage)
            → send_one S
                (from here.id)
                known
                reaches
                there.id
                (new_encoder_message (from here.id) sync_message (there.codec.encode_sync sm))
              ≡ sent node (data_of sm) ∷ []
        unfolding data_of body_of new_encoder_message send_message_to_node_id to_member
            send_message_to_node
        send_one-sent sm =
            rw
              (
                (encodes_sync sm).1,
                is_known,
                (encodes (new_message (from here.id) sync_message (encodes_sync sm).0)).1,
                arrives (encodes (new_message (from here.id) sync_message (encodes_sync sm).0)).0,
              )
              refl

        deliver-send_one :
            (sm : SyncMessage) (sp : SyncPartition) (s : Synchronizer S) (out : List Sending)
            → in_sync_id S here.id s ≡ true
            → find s.sync_partitions sm.partition ≡ some sp
            → deliver
                (send_one S
                    (from here.id)
                    known
                    reaches
                    there.id
                    (new_encoder_message (from here.id) sync_message (there.codec.encode_sync sm))
                  ++ out)
                s
              ≡ deliver out (enqueue S sm (some sp) s).1
        unfolding deliver data_of body_of
        deliver-send_one sm sp s out i f =
            ap (λ o. deliver (o ++ out) s) (send_one-sent sm)
            ∙ ap (λ e. deliver out (state_after e s))
                (notified sm (body_of sm) (data_of sm) sp s (encodes_sync sm).1
                  (encodes (new_message (from here.id) sync_message (encodes_sync sm).0)).1 i f)

        -- What another node has fetched and sent is, in its order, at the end of the channel.
        pub deliver-send_fetched :
            (name : Bytes) (fetched : List (ℕ × Bytes)) (sp : SyncPartition) (s : Synchronizer S)
            → in_sync_id S here.id s ≡ true
            → find s.sync_partitions name ≡ some sp
            → let t =
                deliver (send_fetched S (from here.id) known reaches there.id name fetched) s in
              (find t.sync_partitions name
                ≡ some (record sp { process = sp.process ++ sync_messages name fetched }))
              × (t.store ≡ s.store)
        unfolding deliver send_fetched sync_messages in_sync_id
        deliver-send_fetched name [] sp s i f =
            (f ∙ ap (λ q. some (record sp { process = q })) (sym (append-nil sp.process)), refl)
        deliver-send_fetched name ((id, message) ∷ fetched) sp s i f =
            let sm : SyncMessage = record { partition = name; id = id; message = message } in
            let more : SyncPartition = record sp { process = sp.process ++ (sm ∷ []) } in
            let (found, kept) =
              deliver-send_fetched name fetched more
                (record s { sync_partitions = put s.sync_partitions name more }) i
                (find-put s.sync_partitions name more name ∙ rw (≟-refl name) refl) in
            let one =
              deliver-send_one sm sp s
                (send_fetched S (from here.id) known reaches there.id name fetched) i f in
            (
              ap (λ t. find t.sync_partitions name) one
                  ∙ found
                  ∙ ap (λ q. some (record sp { process = q }))
                      (append_assoc sp.process (sm ∷ []) (sync_messages name fetched)),
              ap (λ t. t.store) one ∙ kept,
            )

        -- A request is answered by messages whose last reaches the end of the request, and no other:
        -- then the node that asked has them in its channel, its loop ends when it has taken the last, has
        -- called Store for each of them in their order, whatever Store gave, and remembers the last id.
        pub transfer-completes :
            (smr : SyncMessageRequest) (st : S.State) (front : List (ℕ × Bytes)) (final : ℕ)
            (message : Bytes)
            → S.fetch (request_for S smr) st ≡ front ++ ((final, message) ∷ [])
            → All (λ m. m.0 < smr.end_id) front
            → smr.end_id ≤ final
            → (sp : SyncPartition) (s : Synchronizer S) → in_sync_id S here.id s ≡ true
            → find s.sync_partitions smr.partition ≡ some sp
            → sp.process ≡ []
            → let t = deliver (request_loop S (from here.id) known reaches there.id smr st) s in
              let fetched = S.fetch (request_for S smr) st in
              let queue = sync_messages smr.partition fetched in
              (find t.sync_partitions smr.partition ≡ some (record sp { process = queue }))
              × (process_loop S smr.partition smr.end_id queue (sp, t.store) ≡ (
                true,
                ([], (record sp { last_id = final }, store_each smr.partition fetched s.store)),
              ))
        unfolding request_loop
        transfer-completes smr st front final message e a h sp s i f empty =
            let fetched = S.fetch (request_for S smr) st in
            let queue = sync_messages smr.partition fetched in
            let (found, kept) = deliver-send_fetched smr.partition fetched sp s i f in
            (
              found ∙ ap (λ q. some (record sp { process = q ++ queue })) empty,
              ap (λ u. process_loop S smr.partition smr.end_id queue (sp, u)) kept
                  ∙ ap
                      (λ l.
                        process_loop S smr.partition smr.end_id (sync_messages smr.partition l)
                          (sp, s.store))
                      e
                  ∙ process_loop-stores smr.partition smr.end_id front final message sp s.store a h
                  ∙ ap
                      (λ l. (
                        true,
                        ([], (record sp { last_id = final }, store_each smr.partition l s.store)),
                      ))
                      (sym e),
            )
