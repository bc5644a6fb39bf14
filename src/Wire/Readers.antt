-- ===== src/Wire/Readers.antt =====
-- The readers of the formats without a cipher, on whatever a peer sends.
use securelink.Common.{ℕ, ◌≢◌, List, fault}
use securelink.Wire.Frame
use securelink.Wire.Frame.Codec.{frame_unpack-ne-fault}
use securelink.Wire.Pubsub
use securelink.Wire.Pubsub.Codec.{pubsub_unpack-ne-fault}
use securelink.Wire.Rpc.{request_unpack, response_unpack}
use securelink.Wire.Rpc.Codec.{rpc_unpack-ne-fault}
use securelink.Wire.FileMeta.{meta_unpack}
use securelink.Wire.FileMeta.Codec.{meta_unpack-ne-fault}
use securelink.Wire.FileChunk.{chunk_unpack}
use securelink.Wire.FileChunk.Codec.{chunk_unpack-ne-fault}

-- Whatever the input: the readers of stream frames, pub/sub messages, requests, responses, file
-- metadata and file chunks read no byte outside it.
pub readers-ne-fault :
    (input : List ℕ)
    → (Frame.unpack input ≢ fault)
      × (Pubsub.unpack input ≢ fault)
      × (request_unpack input ≢ fault)
      × (response_unpack input ≢ fault)
      × (meta_unpack input ≢ fault)
      × (chunk_unpack input ≢ fault)
readers-ne-fault input = (
  frame_unpack-ne-fault input,
  pubsub_unpack-ne-fault input,
  (rpc_unpack-ne-fault input).0,
  (rpc_unpack-ne-fault input).1,
  meta_unpack-ne-fault input,
  chunk_unpack-ne-fault input,
)
