-- ===== src/Lib.antt =====
-- A model of the HPE 3PAR volume plug-in for Docker (hpedockerplugin). Docker's requests reach
-- hpedockerplugin/hpe_storage_api.py, are checked by hpedockerplugin/request_validator.py (block
-- volumes) or hpedockerplugin/request_context.py (file shares), and go to a manager:
-- hpedockerplugin/volume_manager.py for block volumes, hpedockerplugin/file_manager.py with the
-- commands of hpedockerplugin/cmd for file shares. The managers keep their records in etcd
-- (hpedockerplugin/etcdutil.py) under named locks (hpedockerplugin/synchronization.py), and
-- drive the arrays through hpedockerplugin/hpe/hpe_3par_common.py and its drivers.
--
-- Volume models the records of hpedockerplugin/hpe/volume.py and the keys that volume_manager.py
-- adds to them (createvol). Etcd models the class EtcdUtil (get_vol_byname, get_vol_by_id,
-- save_vol, update_vol, delete_vol, get_vol_path_info); Locks the decorators of
-- synchronization.py with the class EtcdLock; Names the naming functions of
-- hpedockerplugin/hpe/utils.py.
--
-- Effect is the world of volume_manager.py: the calls that leave the process, the exceptions,
-- and Env, a function that gives for every call and every earlier history of calls the exception
-- that it raises, or none, and its answer. A theorem over all environments so covers every
-- behaviour of the arrays, OS Brick, the host's commands and the etcd client. Other nodes change
-- etcd only while this node sleeps. Effect.Undo is _rollback; Effect.Trace says what a history
-- of calls leaves to undo, without the undo lists of the code; Effect.Tracked is the invariant
-- that the two agree; Effect.Keeps, Effect.Reaches and Effect.Splits are the rules by which
-- properties of actions are put together.
--
-- Manager models volume_manager.py, one function per method or part of a method, as do blocks
-- that follow the statements: Manager has the helpers that register undo steps, Manager.Create
-- create_volume, Manager.Clone clone_volume and _clone_volume, Manager.Snapshot create_snapshot
-- and _create_snapshot, Manager.Remove remove_volume and remove_snapshot. Replication models
-- _get_target_driver and _force_remove_vlun. Mount models the helpers of mount_volume,
-- Mount.Connect the inner function _mount_volume and the choice of the arrays, Mount.Fencing
-- what happens to a volume of another node, Mount.Attach the rest of a mount, Mount.Session the
-- decision between a first mount, one more mount, a reboot and another node's volume, and
-- Unmount unmount_volume. A child module that ends in Undo proves what a failed operation leaves
-- behind.
--
-- Request models what the validators share, Request.Volume the validator of block requests,
-- Request.Share the checks of fsMode and fsOwner, and Request.Share.Params the rest of the
-- context of a share request. IpPool models hpedockerplugin/cmd/cmd_claimavailableip.py and the
-- counter of hpedockerplugin/cmd/cmd_generate_fpg_vfs_names.py on the metadata of one backend,
-- as explicit state passing; IpPool.Refinement has the lists of addresses next to the state of
-- each address that they stand for. Password models PasswordDecryptor._key_check of
-- hpedockerplugin/hpe/utils.py.
--
-- Python models what the source uses of int, of str.lower and of truth values; int reads ASCII
-- digits and spaces only. Api models hpedockerplugin/hpe_storage_api.py: Flow is the early
-- return of an answer or an exception, Api.Create volumedriver_create, Api.Snapshot
-- volumedriver_create_snapshot and volumedriver_clone_volume, Api.Replication
-- _validate_rcg_params, and Api.Routes the other handlers with
-- hpedockerplugin/request_router.py. Orchestrator models hpedockerplugin/backend_orchestrator.py
-- with hpedockerplugin/backend_async_initializer.py; Orchestrator.Steps has the events of a node
-- one by one, those of the threads and the record changes of other nodes included, as a step
-- relation.
--
-- File is the world of hpedockerplugin/file_manager.py and of the commands of
-- hpedockerplugin/cmd, in the same way as Effect: File.Mount models mount_share and
-- unmount_share, File.Defaults what the commands do to the metadata of a backend, File.Commands
-- the commands with execute and unexecute, File.Place the groups on which a share is put (the
-- generators of file_manager.py), File.Create _create_share with the making of new groups, and
-- File.Delete remove_share and cmd_deleteshare.py. Manager.Inspect models list_volumes, get_path
-- and the synchronisation of snapshots.
--
-- JSON text is identified with the record that it encodes. Log lines and the texts of error
-- messages are left out: a message is the constructor that names it. An absent key is none;
-- where the source tells an absent key from a null, the field is an option of an option. Loops
-- run over lists, or over the rounds that mount_conflict_delay allows. Only the loop of
-- _create_default_fpg has a bound of its own, `tries`: the loop of the source ends when the
-- array has no group of the generated name; a bound that is too small gives the error
-- fpg_already_exists, which the source never passes on from there, and a larger bound gives what
-- a smaller one gave that was enough. Sets of Python are lists, and the element that is taken
-- from a set is a parameter. What an array answers is taken to have the keys that the source
-- reads, and the comparison of vol_mount with its default by identity is one of texts. The
-- drivers of the arrays, fileutil.py, the REST client, etcd and OS Brick are behind Env. Volume
-- import, the details of volumes and shares, the parser of the address pool, the configuration
-- and the start-up of the service are not modelled.
mod Prelude
pub mod Volume
pub mod Effect
pub mod Names
pub mod Etcd
pub mod Locks
pub mod Manager
pub mod Samples
pub mod Replication
pub mod Mount
pub mod Unmount
pub mod Request
pub mod IpPool
pub mod Password
pub mod Python
pub mod Api
pub mod Orchestrator
pub mod File
