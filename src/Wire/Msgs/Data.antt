-- ===== src/Wire/Msgs/Data.antt =====
-- src/wire/msgs.rs: the messages. Arrays, keys, signatures and feature vectors are their bytes.
use keraunos.Prelude.{ℕ, List, Option, Bytes}
use keraunos.Types.{Msat, ShortChannelId}

pub record Init : Type 0 where
  pub global_features : Bytes
  pub features : Bytes
  pub networks : Option (List Bytes)

pub record ErrorMsg : Type 0 where
  pub channel_id : Bytes
  pub body : Bytes

pub record WarningMsg : Type 0 where
  pub channel_id : Bytes
  pub body : Bytes

pub record Ping : Type 0 where
  pub num_pong_bytes : ℕ
  pub ignored : Bytes

pub record Pong : Type 0 where
  pub ignored : Bytes

pub record ChannelBasepoints : Type 0 where
  pub funding_pubkey : Bytes
  pub revocation : Bytes
  pub payment : Bytes
  pub delayed_payment : Bytes
  pub htlc : Bytes

pub record OpenChannel : Type 0 where
  pub chain_hash : Bytes
  pub temporary_channel_id : Bytes
  pub funding_satoshis : ℕ
  pub push_msat : Msat
  pub dust_limit_satoshis : ℕ
  pub max_htlc_value_in_flight_msat : Msat
  pub channel_reserve_satoshis : ℕ
  pub htlc_minimum_msat : Msat
  pub feerate_per_kw : ℕ
  pub to_self_delay : ℕ
  pub max_accepted_htlcs : ℕ
  pub basepoints : ChannelBasepoints
  pub first_per_commitment_point : Bytes
  pub channel_flags : ℕ
  pub upfront_shutdown_script : Option Bytes
  pub channel_type : Option Bytes

pub record AcceptChannel : Type 0 where
  pub temporary_channel_id : Bytes
  pub dust_limit_satoshis : ℕ
  pub max_htlc_value_in_flight_msat : Msat
  pub channel_reserve_satoshis : ℕ
  pub htlc_minimum_msat : Msat
  pub minimum_depth : ℕ
  pub to_self_delay : ℕ
  pub max_accepted_htlcs : ℕ
  pub basepoints : ChannelBasepoints
  pub first_per_commitment_point : Bytes
  pub upfront_shutdown_script : Option Bytes
  pub channel_type : Option Bytes

pub record FundingCreated : Type 0 where
  pub temporary_channel_id : Bytes
  pub funding_txid : Bytes
  pub funding_output_index : ℕ
  pub signature : Bytes

pub record FundingSigned : Type 0 where
  pub channel_id : Bytes
  pub signature : Bytes

pub record ChannelReady : Type 0 where
  pub channel_id : Bytes
  pub second_per_commitment_point : Bytes
  pub short_channel_id_alias : Option ℕ

pub record Shutdown : Type 0 where
  pub channel_id : Bytes
  pub scriptpubkey : Bytes

pub record ClosingSignedFeeRange : Type 0 where
  pub min_fee_satoshis : ℕ
  pub max_fee_satoshis : ℕ

pub record ClosingSigned : Type 0 where
  pub channel_id : Bytes
  pub fee_satoshis : ℕ
  pub signature : Bytes
  pub fee_range : Option ClosingSignedFeeRange

pub record UpdateAddHtlc : Type 0 where
  pub channel_id : Bytes
  pub id : ℕ
  pub amount_msat : Msat
  pub payment_hash : Bytes
  pub cltv_expiry : ℕ
  pub onion_routing_packet : Bytes

pub record UpdateFulfillHtlc : Type 0 where
  pub channel_id : Bytes
  pub id : ℕ
  pub payment_preimage : Bytes

pub record UpdateFailHtlc : Type 0 where
  pub channel_id : Bytes
  pub id : ℕ
  pub reason : Bytes

pub record UpdateFailMalformedHtlc : Type 0 where
  pub channel_id : Bytes
  pub id : ℕ
  pub sha256_of_onion : Bytes
  pub failure_code : ℕ

pub record CommitmentSigned : Type 0 where
  pub channel_id : Bytes
  pub signature : Bytes
  pub htlc_signatures : List Bytes

pub record RevokeAndAck : Type 0 where
  pub channel_id : Bytes
  pub per_commitment_secret : Bytes
  pub next_per_commitment_point : Bytes

pub record UpdateFee : Type 0 where
  pub channel_id : Bytes
  pub feerate_per_kw : ℕ

pub record ChannelReestablish : Type 0 where
  pub channel_id : Bytes
  pub next_commitment_number : ℕ
  pub next_revocation_number : ℕ
  pub your_last_per_commitment_secret : Bytes
  pub my_current_per_commitment_point : Bytes

pub record AnnouncementSignatures : Type 0 where
  pub channel_id : Bytes
  pub short_channel_id : ShortChannelId
  pub node_signature : Bytes
  pub bitcoin_signature : Bytes

pub record ChannelAnnouncement : Type 0 where
  pub node_signature_1 : Bytes
  pub node_signature_2 : Bytes
  pub bitcoin_signature_1 : Bytes
  pub bitcoin_signature_2 : Bytes
  pub features : Bytes
  pub chain_hash : Bytes
  pub short_channel_id : ShortChannelId
  pub node_id_1 : Bytes
  pub node_id_2 : Bytes
  pub bitcoin_key_1 : Bytes
  pub bitcoin_key_2 : Bytes

-- The address, and the port last.
pub data NetAddress : Type 0 where
  v4 v6 : Bytes → ℕ → NetAddress
  -- ed25519_pubkey, checksum, version, port
  tor_v3 : Bytes → ℕ → ℕ → ℕ → NetAddress
  hostname : Bytes → ℕ → NetAddress

pub record NodeAnnouncement : Type 0 where
  pub signature : Bytes
  pub features : Bytes
  pub timestamp : ℕ
  pub node_id : Bytes
  pub rgb_color : Bytes
  pub alias : Bytes
  pub addresses : List NetAddress

pub record ChannelUpdate : Type 0 where
  pub signature : Bytes
  pub chain_hash : Bytes
  pub short_channel_id : ShortChannelId
  pub timestamp : ℕ
  pub message_flags : ℕ
  pub channel_flags : ℕ
  pub cltv_expiry_delta : ℕ
  pub htlc_minimum_msat : Msat
  pub fee_base_msat : ℕ
  pub fee_proportional_millionths : ℕ
  pub htlc_maximum_msat : Msat

pub record GossipTimestampFilter : Type 0 where
  pub chain_hash : Bytes
  pub first_timestamp : ℕ
  pub timestamp_range : ℕ

pub data Message : Type 0 where
  warning : WarningMsg → Message
  init : Init → Message
  error : ErrorMsg → Message
  ping : Ping → Message
  pong : Pong → Message
  open_channel : OpenChannel → Message
  accept_channel : AcceptChannel → Message
  funding_created_msg : FundingCreated → Message
  funding_signed : FundingSigned → Message
  channel_ready : ChannelReady → Message
  shutdown : Shutdown → Message
  closing_signed : ClosingSigned → Message
  update_add_htlc : UpdateAddHtlc → Message
  update_fulfill_htlc : UpdateFulfillHtlc → Message
  update_fail_htlc : UpdateFailHtlc → Message
  update_fail_malformed_htlc : UpdateFailMalformedHtlc → Message
  commitment_signed : CommitmentSigned → Message
  revoke_and_ack : RevokeAndAck → Message
  update_fee : UpdateFee → Message
  channel_reestablish : ChannelReestablish → Message
  announcement_signatures : AnnouncementSignatures → Message
  channel_announcement : ChannelAnnouncement → Message
  node_announcement : NodeAnnouncement → Message
  channel_update : ChannelUpdate → Message
  gossip_timestamp_filter : GossipTimestampFilter → Message
  unknown : ℕ → Bytes → Message
