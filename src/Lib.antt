-- ===== src/Lib.antt =====
-- tklb, a cross platform C++ library of containers, allocators and audio helpers.
--
-- Parts and files:
--   Memory/FixedPool   src/memory/TFixedPool.hpp: FixedPool. The pool's memory is a function from
--     byte offsets to 64-bit words, pointers are offsets; allocate, deallocate, reallocate and
--     realAllocation are allocate, deallocate, reallocate and real_allocation. Layout has the
--     invariant (blocks that fill the pool), Spec the first-fit search over a list of blocks.
--   Memory/MemoryCheck src/memory/TMemoryCheck.hpp: MagicBlock; memory is a function from addresses to
--     bytes. The constructor is new_block, sizeNeeded is size_needed.
--   Memory/Helpers     src/memory/TMemory.hpp: stringCopy, set and zero are string_copy, set_elements and
--     zero_bytes.
--   Memory/Malloc      src/memory/TMemory.hpp and src/memory/TAllocator.hpp: tklb_malloc and tklb_free of
--     the build with TKLB_MEMORY_CHECK, over Memory/MemoryCheck, are checked_malloc and checked_free;
--     DefaultAllocator::allocate is allocate_elements. malloc and free are a parameter.
--   Types/HandleBuffer src/types/THandleBuffer.hpp: HandleBuffer with its default template
--     arguments; resize, at, has, create, remove and iterate keep their names. A run that reads out
--     of bounds is a fault (Base/Faults).
--   Types/HeapBuffer   src/types/THeapBuffer.hpp: HeapBuffer. A heap knows which blocks are allocated,
--     a block has a name and cells that may hold objects; the operations keep their names (set is
--     set_data, remove is remove_at and remove_object). Whether the allocator grants a request is a
--     parameter. Owned has the view of a buffer as the list of its objects.
--   Types/EventBus     src/types/TEventBus.hpp: addSubscriber, removeSubscriber and fireEvent over
--     Types/HeapBuffer; callbacks are recorded and taken not to change the bus.
--   Types/SpinLock     src/types/TSpinLock.hpp and src/types/TLockGuard.hpp: threads that take turns,
--     one access of the flag at a time, and run_turns follows a schedule. guard_try and end_guard_try are
--     LockGuardTry.
--   Types/String       src/types/TString.hpp: String as the list of its characters with the terminator;
--     set is set_sized and set_string, operator== is equal; contains, append and prepend keep their names.
--   Types/StackString  src/types/TString.hpp: StackString; set is set_c_string, operator== is same_string and
--     equal_c_string, put is put_c_string, size is string_size.
--   Types/Audio        src/types/audio/TAudioBuffer.hpp and src/types/audio/TAudioRingBuffer.hpp:
--     AudioBuffer is the list of the samples, channel behind channel, in the build without SIMD; the
--     overloads of set are set_value, set_array, set_arrays and set_buffer, those of put are put_array
--     and put_arrays, add and multiply of a buffer are combine, of a value apply_value. How a sample is
--     converted is a parameter. AudioRingBuffer keeps the names (pushOver is push_over).
--     ConvolverBrute is src/types/audio/convolver/TConvolverBrute.hpp over any samples with a sum and a
--     product. ResamplerHold and ResamplerLinear are src/types/audio/resampler/TResamplerHold.hpp and
--     src/types/audio/resampler/TResamplerLinear.hpp; floating point numbers are a parameter, for the
--     first a record of what is used of them (Floating) with rounding to a nearest index as its law, for the
--     second what their arithmetic makes of an index or of two samples.
--     Wave and WaveWrite are load and write of src/types/audio/codec/TWave.hpp; dr_wav is a parameter, a
--     record of its functions, and what it documents is a record of laws. Vorbis is
--     src/types/audio/codec/TVorbis.hpp; load is load_vorbis_float for floats and load_vorbis for other
--     samples, and stb_vorbis is a parameter in the same way.
--   Util/Random        src/util/TRandom.h: the linear congruential generator.
--   Util/Uuid          src/util/TUuid.h: generate and isValid over characters behind a pointer.
--   Util/Logger        src/util/TLogger.hpp: file_name is what tklb_print_path makes of a path.
-- Base has what these share: tests, lists, words of 32 and 64 bits, faults.
--
-- Bounds and fuel: a word is a natural number with its wrap-around written out. The search loop of
-- FixedPool::allocate has one round of fuel for each byte of the pool; a round moves on by at least
-- one block. The search for the end of a C string has MAX_LENGTH rounds, as the code has.
-- The loops of Wave::load, Wave::write and vorbis::load have fuel; one more than the frames of the
-- sound is enough where they end.
--
-- Not modelled: the destructors that only assert, TKLB_ASSERT (asserts are compiled out);
-- floating point, third-party code and the wrappers of Fourier transforms, hiir and Speex, with the
-- convolvers over them; the mutexes, delegates and operators new, which only pass on; an argument of
-- HeapBuffer::push that refers into the buffer itself; a set of the bytes that Wave::write gives out that
-- is refused; the cosine resampler; formatting, input and output.
pub mod Base
pub mod Memory
pub mod Types
pub mod Util
