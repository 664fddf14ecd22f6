-- ===== src/UnitDma/Conserves.antt =====
-- alloc_one_slot and alloc_one_bounce of src/unit_task.c take for the buffers what they hold afterwards.
use virtual_scsidevice.Base.{◌≡◌, ◌==◌, false, if_ind, [], ◌∷◌, arith}
use virtual_scsidevice.DoIo.Whole.{req_size}
use virtual_scsidevice.DoIo.Dma.{alloc_vec, start_dma, alloc_list}
use virtual_scsidevice.DoIo.Balance.{takes, gives}
use virtual_scsidevice.UnitDma.{
  Buffers, Answers, Allocated, map_resp, map_req, alloc_one_slot, alloc_one_bounce, alloc_pool,
  outward,
}
use virtual_scsidevice.UnitDma.Holds.{holds, Accounts, Accounts-append}

-- nothing is held of the response's mapping and list, of both, of all that alloc_one_slot takes
abbrev pub NoResp : Buffers → Type 0
NoResp b = (b.resp_list ≡ 0) × (b.resp_entries ≡ 0)

abbrev pub NoMaps : Buffers → Type 0
NoMaps b = NoResp b × (b.req_list ≡ 0) × (b.req_entries ≡ 0)

abbrev pub NoSlot : Buffers → Type 0
NoSlot b = NoMaps b × (b.req_buf ≡ 0) × (b.resp_buf ≡ 0)

-- an allocation accounts for its calls
abbrev pub AccountsFor : Buffers → Allocated → Type 0
AccountsFor b o = Accounts b o.buffers o.calls

map_resp-Accounts :
    (a : Answers) (b : Buffers)
    → NoResp b
    → (b.req_buf == 0) ≡ false
    → (b.resp_buf == 0) ≡ false
    → (b.req_list == 0) ≡ false
    → (b.req_entries == 0) ≡ false
    → AccountsFor b (map_resp a b)
unfolding map_resp holds takes gives
map_resp-Accounts a b n h k l m =
    if_ind (AccountsFor b) (a.resp_entries == 0) _ _
      (λ e. record {
        memories = λ x. ground arith;
        mappings = λ x. ground arith;
        lists = λ x. ground arith;
      })
      (λ e.
        if_ind (AccountsFor b) (a.resp_list == 0) _ _
          (λ f. record {
            memories = λ x. ground arith;
            mappings = λ x. ground arith;
            lists = λ x. ground arith;
          })
          (λ f. record {
            memories = λ x. ground arith;
            mappings = λ x. ground arith;
            lists = λ x. ground arith;
          }))

map_req-Accounts :
    (a : Answers) (b : Buffers)
    → NoMaps b
    → (b.req_buf == 0) ≡ false
    → (b.resp_buf == 0) ≡ false
    → AccountsFor b (map_req a b)
unfolding map_req holds takes gives
map_req-Accounts a b n h k =
    let mapped = record b { req_entries = a.req_entries; req_list = a.req_list } in
    if_ind (AccountsFor b) (a.req_entries == 0) _ _
      (λ e. record {
        memories = λ x. ground arith;
        mappings = λ x. ground arith;
        lists = λ x. ground arith;
      })
      (λ e.
        if_ind (AccountsFor b) (a.req_list == 0) _ _
          (λ f. record {
            memories = λ x. ground arith;
            mappings = λ x. ground arith;
            lists = λ x. ground arith;
          })
          (λ f.
            Accounts-append b mapped (map_resp a mapped).buffers
              (start_dma b.req_buf req_size a.req_entries outward ∷ alloc_list a.req_list ∷ [])
              (map_resp a mapped).calls
              (record {
                memories = λ x. ground arith;
                mappings = λ x. ground arith;
                lists = λ x. ground arith;
              })
              (map_resp-Accounts a mapped n.0 h k f e)))

pub alloc_one_slot-Accounts :
    (a : Answers) (b : Buffers) → NoSlot b → AccountsFor b (alloc_one_slot a b)
unfolding alloc_one_slot holds takes gives
alloc_one_slot-Accounts a b n =
    let taken = record b { req_buf = a.req_buf; resp_buf = a.resp_buf } in
    if_ind (AccountsFor b) (a.req_buf == 0) _ _
      (λ e. record {
        memories = λ x. ground arith;
        mappings = λ x. ground arith;
        lists = λ x. ground arith;
      })
      (λ e.
        if_ind (AccountsFor b) (a.resp_buf == 0) _ _
          (λ f. record {
            memories = λ x. ground arith;
            mappings = λ x. ground arith;
            lists = λ x. ground arith;
          })
          (λ f.
            Accounts-append b taken (map_req a taken).buffers
              (alloc_vec a.req_buf ∷ alloc_vec a.resp_buf ∷ []) (map_req a taken).calls
              (record {
                memories = λ x. ground arith;
                mappings = λ x. ground arith;
                lists = λ x. ground arith;
              })
              (map_req-Accounts a taken n.0 e f)))

abbrev pub NoBounce : Buffers → Type 0
NoBounce b = (b.bounce_buf ≡ 0) × (b.bounce_entries ≡ 0)

pub alloc_one_bounce-Accounts :
    (a : Answers) (b : Buffers) → NoBounce b → AccountsFor b (alloc_one_bounce a b)
unfolding alloc_one_bounce holds takes gives
alloc_one_bounce-Accounts a b n =
    if_ind (AccountsFor b) (a.bounce_buf == 0) _ _
      (λ e. record {
        memories = λ x. ground arith;
        mappings = λ x. ground arith;
        lists = λ x. ground arith;
      })
      (λ e.
        if_ind (AccountsFor b) (a.bounce_entries == 0) _ _
          (λ f. record {
            memories = λ x. ground arith;
            mappings = λ x. ground arith;
            lists = λ x. ground arith;
          })
          (λ f.
            if_ind (AccountsFor b) (a.bounce_list == 0) _ _
              (λ g. record {
                memories = λ x. ground arith;
                mappings = λ x. ground arith;
                lists = λ x. ground arith;
              })
              (λ g. record {
                memories = λ x. ground arith;
                mappings = λ x. ground arith;
                lists = λ x. ground arith;
              })))

pub alloc_pool-Accounts : (a : Answers) (b : Buffers) → b.pool ≡ 0 → AccountsFor b (alloc_pool a b)
unfolding holds takes gives
alloc_pool-Accounts a b n = record {
  memories = λ x. ground arith;
  mappings = λ x. ground arith;
  lists = λ x. ground arith;
}

-- The parts of the buffers that one allocation leaves as they are.
abbrev pub SameRest : Buffers → Buffers → Type 0
SameRest b c =
    (c.bounce_buf ≡ b.bounce_buf) × (c.bounce_entries ≡ b.bounce_entries) × (c.pool ≡ b.pool)

pub alloc_one_slot-rest : (a : Answers) (b : Buffers) → SameRest b (alloc_one_slot a b).buffers
unfolding alloc_one_slot map_req map_resp
alloc_one_slot-rest a b = ground arith

pub alloc_one_bounce-rest :
    (a : Answers) (b : Buffers) → (alloc_one_bounce a b).buffers.pool ≡ b.pool
unfolding alloc_one_bounce
alloc_one_bounce-rest a b = ground arith
