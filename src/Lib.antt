-- ===== src/Lib.antt =====
-- The zkSync Python SDK: a client that builds transactions of the zkSync rollup, signs them with
-- the account's zkSync key and its Ethereum key, and submits them to a server.
--
-- The parts, each with the file of the repository that it models:
-- - Prelude: shared helpers. Numbers are the native ℕ, with integers over it (Prelude.Int) and
--   Python's exceptions as values of Result (Prelude.Results).
-- - Python: what the package uses of Python itself: texts as lists of code points, int.to_bytes,
--   bytes.fromhex, hex and zfill, decimal.Decimal with its context of 28 digits,
--   fractions.Fraction, int and Decimal of a text (Python.IntText, Python.DecimalText), statements
--   that change a state and may raise (Python.Effects). bytes are lists of numbers below 256.
-- - Serializers: zksync_sdk/serializers.py. Amounts and fees are packed as decimal floats with an
--   exponent of 5 bits and a mantissa of 35 or 11 bits. integer_to_float is cut into its loop
--   (find_exponent), its choice of the mantissa (choose_mantissa) and its output (float_bytes).
--   Serializers.Bits, Float and Rounding carry the proofs, Format joins them for any widths,
--   Amounts and Fees take the two formats. Serializers.Fields has the fields of fixed width.
-- - Library: zksync_sdk/lib.py. The C functions of zks-crypto are the fields of NativeCrypto, of
--   which nothing is assumed but that each returns bytes.
-- - Types: the records of zksync_sdk/types/transactions.py, types/signatures.py and
--   types/responses.py. An argument that may be None is an Option; a value that may be an NFT is
--   an AnyToken.
-- - Encoding: the encoded_message methods of types/transactions.py as lists of fields that join
--   puts behind one another; Swap.encoded_message hashes its orders with the library that
--   ZkSyncLibrary() gives in the environment, which may fail to load and then raises.
-- - Tokens, Messages: the methods of Token and Tokens, and the human_readable_message methods.
-- - Json, Dicts: JSON as Python holds it, and the dict methods of types/transactions.py and
--   types/signatures.py, which make the JSON of a transaction. Dicts.Reader is no code of the
--   package: it makes the bytes to be signed from the JSON alone, the way the server has to.
-- - Provider: the methods of zksync_sdk/zksync_provider/interface.py that the wallet calls, as a
--   record of functions over a World, the state of the server, of which nothing is assumed.
--   Provider.V01 is zksync_sdk/zksync_provider/v01.py, which fills this interface by requests of a
--   Transport.
-- - Responses: the names of fields in types/responses.py, whose records stand with Types and
--   Provider.
-- - Network, Transport: zksync_sdk/network.py and zksync_sdk/transport. A Transport is a record of
--   a World and a request; http_transport makes one of an HttpClient, which stands for httpx.
-- - Signers: zksync_sdk/zksync_signer.py and ethereum_signer/web3.py. The account of the
--   eth_account package is a parameter: an address and a function that signs bytes. What
--   ZkSyncLibrary() gives when Swap.encoded_message calls it is the field environment_library of a
--   ZkSyncSigner, a Result, taken to be the same at each call.
-- - Wallet: zksync_sdk/wallet.py. A method is a function of the wallet's two attributes that
--   change and of the World, and returns a Result and both states: what was written before an
--   exception stays written. Wallet.Build has the build methods, Wallet.Send the methods that
--   submit, Wallet.Orders the orders. Wallet.Runs inverts a method that succeeds into its steps,
--   Wallet.Steps says what a nonce and a fee are without the code that asks for them;
--   Wallet.Sending, Withdrawing, Exits, Nfts, Swaps, Authorising and Keys use them.
--   Wallet.Reachable has the calls of all methods and the wallets that they lead to,
--   Wallet.Keeping and Lookups what each method leaves true. Wallet.Posting puts the wallet on
--   Provider.V01 and that on HTTP.
-- - Contracts: zksync_sdk/zksync.py, with the caches of zksync_sdk/contract_utils.py in
--   Contracts.Abi (a null of JSON is None there, and is read again) and
--   zksync_sdk/ethereum_provider.py in Contracts.Deposits. web3, the chain and the files of the
--   package are the record Web3.
-- - Tests: the vectors of tests/test_signer.py, and each result at a concrete input.
--
-- Loops: find_exponent runs on fuel, 2 to the power of the exponent's bits, which is never used up;
-- Euclid's algorithm gets one round more than its second number, which shrinks each round. The other
-- loops follow the structure of a list or a number.
--
-- Not modelled: pydantic, whose constructors, which make the responses of JSON by aliases in camel
-- case, are the fields of Models. The loading of the shared library and of the interfaces of the
-- contracts are parameters. str.lower is that of ASCII, Decimal has no limits on exponents and reads
-- the digits of ASCII, and JSON has no numbers but integers. A request whose parameters are no JSON
-- raises where Python raises as it writes them.
pub mod Prelude
pub mod Python
pub mod Serializers
pub mod Library
pub mod Types
pub mod Encoding
pub mod Json
pub mod Dicts
pub mod Tokens
pub mod Messages
pub mod Provider
pub mod Responses
pub mod Signers
pub mod Network
pub mod Transport
pub mod Contracts
pub mod Wallet
mod Tests
